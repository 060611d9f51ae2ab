-- ===== src/Relay.antt =====
-- The routes of the agent relay (backend/internal/api/agent_relay.go): what agents report.
pub mod Json
pub mod Output
pub mod Requests
pub mod Commands
mod Tests
