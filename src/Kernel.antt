-- ===== src/Kernel.antt =====
-- henry/sandbox/kernel_protocol.py: one cell is run, and its outputs are collected within a budget; and
-- henry/sandbox/kernel_entry.py, which the container runs.
pub mod Ansi
pub mod Fit
pub mod Outputs
pub mod Drain
pub mod Entry
mod Tests
