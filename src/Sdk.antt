-- ===== src/Sdk.antt =====
-- The parts of the SDK (sdk/) that run inside an application.
pub mod Nonce
pub mod Lru
pub mod Cache
pub mod Error
pub mod Validate
pub mod Sign
pub mod AccessKey
pub mod Authz
pub mod Watch
