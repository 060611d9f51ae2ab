-- ===== src/Session.antt =====
-- The sessions that phones and terminals share: backend/internal/session/manager.go.
pub mod Manager
pub mod Consistent
pub mod Run
pub mod Window
pub mod Found
pub mod History
mod Tests
