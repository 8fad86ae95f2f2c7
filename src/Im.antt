-- ===== src/Im.antt =====
-- The messaging gateway (internal/im).
pub mod Rendezvous
