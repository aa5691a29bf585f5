-- ===== src/Agent.antt =====
-- henry/agent/runner.py: one run of the agent.
pub mod Choice
pub mod Run
pub mod Prompt
mod Tests
