-- ===== src/Authz/Core/Tests.antt =====
-- The decision of sdk/authzcore/authzcore.go on the policies of a shop.
use fp.Common.{true, List, [], ◌∷◌, some, ◌≡◌, refl, ◌↔◌, ◌⊎◌}
use fp.Common.Lists.{In}
use fp.Authz.Core.{
  RolePolicy, admin_role_key, compile, allow_with, allow, snapshot_allow, check_all, check,
  check_extra, compile_from, compile_step, has_admin, add_all,
}
use fp.Authz.Core.Decision.{consulted}
use fp.Authz.Core.Rule.{Denied, Granted, allow_with_iff}

abbrev shop : List RolePolicy
shop =
    record { role_key = "SALES"; allow = "GET:/o" ∷ "PUT:/o" ∷ []; deny = [] }
    ∷ record { role_key = "GUEST"; allow = "GET:/p" ∷ []; deny = [] }
    ∷ record { role_key = "SALES"; allow = []; deny = "PUT:/o" ∷ [] }
    ∷ []

sales_reads : allow shop ("SALES" ∷ []) "GET:/o" ≡ true
unfolding allow snapshot_allow allow_with check_all check check_extra compile compile_from
    compile_step add_all has_admin
sales_reads = refl

allow_with_iff_example :
    (allow_with (some (compile shop)) ("SALES" ∷ []) "GUEST" "PUT:/o" ≡ true) ↔ (
      In admin_role_key ("SALES" ∷ [])
      ⊎ (¬ Denied shop (consulted ("SALES" ∷ []) "GUEST") "PUT:/o")
        × Granted shop (consulted ("SALES" ∷ []) "GUEST") "PUT:/o")
allow_with_iff_example = allow_with_iff shop ("SALES" ∷ []) "GUEST" "PUT:/o"
