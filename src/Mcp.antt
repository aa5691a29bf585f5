-- ===== src/Mcp.antt =====
-- henry/integrations/mcp.py: the servers of the configuration file and what comes back from their tools.
pub mod Expand
pub mod Results
pub mod Definition
pub mod Load
mod Tests
