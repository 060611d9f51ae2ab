-- ===== src/Risk.antt =====
-- The risk of a command and what a permission mode makes of it: backend/internal/risk, its tables in
-- backend/internal/store, and the permissions of backend/internal/session/message.go.
pub mod Patterns
pub mod Memo
pub mod Rules
pub mod Engine
pub mod Permission
pub mod Priority
pub mod Reload
mod Tests
