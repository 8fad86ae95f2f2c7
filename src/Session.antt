-- ===== src/Session.antt =====
-- Sessions: internal/domain/session.go and application.go (the session policy),
-- internal/store/session.go and internal/service/session.go.
pub mod Policy
pub mod Monad
pub mod Redis
pub mod Memory
pub mod Store
pub mod Service
pub mod Revoke
