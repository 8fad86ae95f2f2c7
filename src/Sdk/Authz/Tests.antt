-- ===== src/Sdk/Authz/Tests.antt =====
-- A decision inside an application.
use fp.Common.{true, false, List, [], ◌∷◌, none, some, ◌≡◌, ◌↔◌}
use fp.Common.Int.{pos}
use fp.Authz.Core.{permission_key}
use fp.Authz.Policy.{RoleRow, GrantRow, compile_policy}
use fp.Sdk.Validate.{Identity}
use fp.Sdk.Authz.{decided, new_sdk_authz, set_policy, sdk_allow, sdk_allow_roles}
use fp.Sdk.Authz.Agreement.{IsPermitted, besides, sdk_allow_agrees}

abbrev roles : List RoleRow
roles =
    record { id = "1"; code = "GUEST"; parent_id = none }
    ∷ record { id = "2"; code = "READER"; parent_id = some "1" }
    ∷ []

abbrev grants : List GrantRow
grants = record { role_id = "1"; key = "GET:/o"; effect = "allow" } ∷ []

abbrev partner : Identity
partner = record {
  user_id = "";
  session_id = "";
  rotated_to = "";
  roles = "READER" ∷ [];
  stale = false;
  guest_id = "";
  access_key_id = "AK1";
  access_key_remark = "partner";
}

sdk_allow_agrees_example :
    ((sdk_allow
          (set_policy new_sdk_authz (compile_policy roles grants) (pos 1))
          (some partner)
          "GET"
          "/o"
        ≡ decided true)
      ↔ IsPermitted roles grants ("READER" ∷ []) (besides partner) (permission_key "GET" "/o"))
    × ((sdk_allow_roles
            (set_policy new_sdk_authz (compile_policy roles grants) (pos 1))
            ("GUEST" ∷ [])
            "GET"
            "/o"
          ≡ decided true)
        ↔ IsPermitted roles grants ("GUEST" ∷ []) "" (permission_key "GET" "/o"))
sdk_allow_agrees_example =
    sdk_allow_agrees roles grants new_sdk_authz (pos 1) partner ("GUEST" ∷ []) "GET" "/o"
