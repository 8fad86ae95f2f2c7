-- ===== src/Sdk/Authz.antt =====
-- sdk/authz.go: the decisions inside an application, with the policy that fp sends. The lock makes
-- each of the three operations atomic. The identity of a request, `IdentityFrom`, is an argument.
pub mod Agreement
mod Tests
use fp.Common.{String, Bool, true, false, List, Option, none, some, if◌then◌else◌}
use fp.Common.Int.{ℤ, pos}
use fp.Authz.Core.{
  RolePolicy, Snapshot, guest_role_key, has_admin, permission_key, compile, allow_with,
  snapshot_allow,
}
use fp.Sdk.Validate.{Identity, is_access_key}

-- `Authz`; a nil snapshot is `none`.
pub record SdkAuthz : Type 0 where
  pub version : ℤ
  pub compiled : Option Snapshot
  pub ready : Bool

-- A decision, or one of the errors ErrNoIdentity and ErrPolicyUnavailable.
pub data Decision : Type 0 where
  decided : Bool → Decision
  no_identity policy_unavailable : Decision

-- The zero value of `Authz`.
unfoldable pub new_sdk_authz : SdkAuthz
new_sdk_authz = record { version = pos 0; compiled = none; ready = false }

-- `setPolicy`
unfoldable pub set_policy : SdkAuthz → List RolePolicy → ℤ → SdkAuthz
set_policy a roles version = record a {
  compiled = some (compile roles);
  version = version;
  ready = true;
}

-- The role that is consulted besides those of the identity: an access key is no visitor.
unfoldable pub extra_role : Identity → String
extra_role id = if is_access_key (some id) then "" else guest_role_key

-- `Allow`
unfoldable pub sdk_allow : SdkAuthz → Option Identity → String → String → Decision
sdk_allow a none method pattern = no_identity
sdk_allow a (some id) method pattern =
    if has_admin id.roles
    then decided true
    else if a.ready
    then decided (allow_with a.compiled id.roles (extra_role id) (permission_key method pattern))
    else policy_unavailable

-- `AllowRoles`
unfoldable pub sdk_allow_roles : SdkAuthz → List String → String → String → Decision
sdk_allow_roles a roles method pattern =
    if has_admin roles
    then decided true
    else if a.ready
    then decided (snapshot_allow a.compiled roles (permission_key method pattern))
    else policy_unavailable

-- `PolicyVersion`
unfoldable pub policy_version : SdkAuthz → ℤ
policy_version a = a.version
