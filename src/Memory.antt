-- ===== src/Memory.antt =====
-- henry/memory: the memory of a channel in two tables.
pub mod Items
pub mod Recall
pub mod Snapshot
pub mod Tools
mod Tests
