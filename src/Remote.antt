-- ===== src/Remote.antt =====
-- The remote-control service of backend/internal/remote.
pub mod Model
pub mod World
pub mod Capability
pub mod Repository
pub mod Audit
pub mod Scanner
pub mod Tickets
pub mod Service
pub mod Lifecycle
pub mod Run
pub mod Swap
pub mod Authentication
pub mod Waiting
mod Tests
