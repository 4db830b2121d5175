-- ===== src/Admin.antt =====
-- cmd/keymasterd/adminHandlers.go: the handlers of the administrators.
pub mod Guards
pub mod Handlers
