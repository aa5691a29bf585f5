-- ===== src/Github.antt =====
-- henry/integrations/builtins/github.py: the GitHub tools.
pub mod Paths
pub mod Tools
mod Tests
