-- ===== src/Sdk/Authz/Agreement.antt =====
-- The decisions of sdk/authz.go against the roles and grants in the database of fp.
use fp.Common.{
  String, Bool, true, List, some, ◌≡◌, ◌↔◌, ◌⊎◌, sym, ap, ◌∙◌, arith, if◌then◌else◌, ◌==◌,
}
use fp.Common.Lists.{In}
use fp.Common.Int.{ℤ}
use fp.Authz.Core.{
  RolePolicy, admin_role_key, guest_role_key, permission_key, compile, allow_with, snapshot_allow,
}
use fp.Authz.Core.Decision.{consulted}
use fp.Authz.Policy.{RoleRow, GrantRow, compile_policy}
use fp.Authz.Policy.Table.{Refuses, Permits, allow_with-compile_policy}
use fp.Sdk.Validate.{Identity, is_access_key}
use fp.Sdk.Authz.{SdkAuthz, decided, set_policy, extra_role, sdk_allow, sdk_allow_roles}

decided_injective : (a b : Bool) → decided a ≡ decided b → a ≡ b
decided_injective a b h = cc

-- With a policy the short cut for ADMIN changes no decision.
sdk_allow-set_policy :
    (a : SdkAuthz) (roles : List RolePolicy) (version : ℤ) (id : Identity) (method pattern : String)
    → sdk_allow (set_policy a roles version) (some id) method pattern
      ≡ decided (
          allow_with
            (some (compile roles))
            id.roles
            (extra_role id)
            (permission_key method pattern))
unfolding sdk_allow set_policy allow_with
sdk_allow-set_policy a roles version id method pattern = ground arith

sdk_allow_roles-set_policy :
    (a : SdkAuthz) (roles : List RolePolicy) (version : ℤ) (held : List String)
    (method pattern : String)
    → sdk_allow_roles (set_policy a roles version) held method pattern
      ≡ decided (allow_with (some (compile roles)) held "" (permission_key method pattern))
unfolding sdk_allow_roles set_policy allow_with snapshot_allow
sdk_allow_roles-set_policy a roles version held method pattern = ground arith

-- What the roles and the grants in the database say of a permission.
abbrev pub IsPermitted : List RoleRow → List GrantRow → List String → String → String → Type 0
IsPermitted roles grants held extra p =
    In admin_role_key held
    ⊎ (¬ Refuses roles grants (consulted held extra) p)
      × Permits roles grants (consulted held extra) p

-- GUEST for everyone but an access key.
abbrev pub besides : Identity → String
besides id = if id.access_key_id == "" then guest_role_key else ""

extra_role-besides : (id : Identity) → extra_role id ≡ besides id
unfolding extra_role is_access_key
extra_role-besides id = ground arith

-- Once an application has received the policy that fp compiled from its roles and grants, `Allow` lets
-- a request pass exactly if those roles and grants permit it to the identity: ADMIN is held, or no
-- consulted role has a deny as its nearest grant and one has a nearest grant that is no deny. The
-- consulted roles are the identity's own and GUEST, but not GUEST for an access key. `AllowRoles` does
-- the same for a list of roles without GUEST.
pub sdk_allow_agrees :
    (roles : List RoleRow) (grants : List GrantRow) (a : SdkAuthz) (version : ℤ) (id : Identity)
    (held : List String) (method pattern : String)
    → let policy = set_policy a (compile_policy roles grants) version in
      let p = permission_key method pattern in
      ((sdk_allow policy (some id) method pattern ≡ decided true)
        ↔ IsPermitted roles grants id.roles (besides id) p)
      × ((sdk_allow_roles policy held method pattern ≡ decided true)
          ↔ IsPermitted roles grants held "" p)
sdk_allow_agrees roles grants a version id held method pattern =
    let p = permission_key method pattern in
    let rp = compile_policy roles grants in
    let one =
      sdk_allow-set_policy a rp version id method pattern
      ∙ ap (λ x. decided (allow_with (some (compile rp)) id.roles x p)) (extra_role-besides id) in
    let two = sdk_allow_roles-set_policy a rp version held method pattern in
    let r = allow_with-compile_policy roles grants id.roles (besides id) p in
    let s = allow_with-compile_policy roles grants held "" p in
    (
      (λ h. r.0 (decided_injective _ _ (sym one ∙ h)), λ h. one ∙ ap decided (r.1 h)),
      (λ h. s.0 (decided_injective _ _ (sym two ∙ h)), λ h. two ∙ ap decided (s.1 h)),
    )
