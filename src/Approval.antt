-- ===== src/Approval.antt =====
-- The approvals of backend/internal/approval: a command waits for the phone's verdict, and is denied
-- when none comes in time.
pub mod Model
pub mod Service
pub mod Scanner
pub mod Run
pub mod Pages
mod Tests
