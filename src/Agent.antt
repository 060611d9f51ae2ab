-- ===== src/Agent.antt =====
-- The relay of commands to the local agents: backend/internal/agent/relay.go.
pub mod Model
pub mod Queue
pub mod Reports
pub mod Fifo
pub mod Run
mod Tests
