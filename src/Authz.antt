-- ===== src/Authz.antt =====
-- The authorisation decision: sdk/authzcore/authzcore.go, which server and SDK share, and the
-- compilation of an application's policy, internal/service/policy.go.
pub mod Core
pub mod Policy
pub mod Roles
