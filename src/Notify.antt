-- ===== src/Notify.antt =====
-- Notification templates (internal/notify/render.go, internal/domain/notify.go).
pub mod Template
