-- ===== src/Errors.antt =====
-- Errors and their codes: internal/domain/error.go, codes.go and errors.go, and the translation of
-- an error by the two transports, internal/httpapi/respond.go and internal/grpcapi/errors.go.
pub mod Codes
pub mod Transport
pub mod Registry
mod Tests
