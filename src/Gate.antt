-- ===== src/Gate.antt =====
-- The routes of approvals, where risk, permission modes, approvals and the session memo meet:
-- backend/internal/api/approval_handler.go.
pub mod Handlers
pub mod Routes
pub mod Outcome
pub mod Remembered
pub mod Run
mod Tests
