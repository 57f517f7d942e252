-- ===== src/Agents.antt =====
-- Patterns for agents: agent-patterns.
pub mod Parallel
pub mod Orchestrator
mod Tests
