-- ===== src/Tools.antt =====
-- henry/sandbox/tools.py: the tools that the model calls.
pub mod Slots
pub mod Format
pub mod Clone
pub mod Calls
mod Tests
mod Runs
