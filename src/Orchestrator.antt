-- ===== src/Orchestrator.antt =====
-- henry/orchestrator: one request from its event to its reply, and the record of events.
pub mod Handle
pub mod Dedupe
pub mod Locks
pub mod Audit
mod Tests
