-- ===== src/Authz/Policy/Tests.antt =====
-- A shop with two roles, of which one inherits from the other.
use fp.Common.{String, true, List, [], ◌∷◌, none, some, ◌≡◌, ◌↔◌, ◌⊎◌, Option}
use fp.Common.Lists.{In}
use fp.Common.GoMap.{GoMap, lookup}
use fp.Authz.Core.{admin_role_key, compile, allow_with}
use fp.Authz.Core.Decision.{consulted}
use fp.Authz.Policy.{Effects, RoleRow, GrantRow, compile_policy, effective_for, max_depth}
use fp.Authz.Policy.Inherit.{chain, nearest, lookup-effective_for}
use fp.Authz.Policy.Table.{Refuses, Permits, allow_with-compile_policy}

abbrev roles : List RoleRow
roles =
    record { id = "1"; code = "STAFF"; parent_id = none }
    ∷ record { id = "2"; code = "INTERN"; parent_id = some "1" }
    ∷ []

abbrev grants : List GrantRow
grants =
    record { role_id = "1"; key = "GET:/o"; effect = "allow" }
    ∷ record { role_id = "1"; key = "PUT:/o"; effect = "allow" }
    ∷ record { role_id = "2"; key = "PUT:/o"; effect = "deny" }
    ∷ []

abbrev parents : GoMap (Option String)
parents = ("1", none) ∷ ("2", some "1") ∷ []

abbrev direct : GoMap Effects
direct = ("1", ("GET:/o", "allow") ∷ []) ∷ ("2", ("PUT:/o", "deny") ∷ []) ∷ []

allow_with-compile_policy_example :
    (allow_with (some (compile (compile_policy roles grants))) ("INTERN" ∷ []) "GUEST" "PUT:/o"
      ≡ true)
    ↔ (In admin_role_key ("INTERN" ∷ [])
        ⊎ (¬ Refuses roles grants (consulted ("INTERN" ∷ []) "GUEST") "PUT:/o")
          × Permits roles grants (consulted ("INTERN" ∷ []) "GUEST") "PUT:/o")
allow_with-compile_policy_example =
    allow_with-compile_policy roles grants ("INTERN" ∷ []) "GUEST" "PUT:/o"

lookup-effective_for_example :
    lookup "GET:/o" (effective_for "2" parents direct)
    ≡ nearest direct "GET:/o" (chain parents max_depth (some "2"))
lookup-effective_for_example = lookup-effective_for "GET:/o" "2" parents direct
