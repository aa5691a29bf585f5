-- ===== src/Wiring.antt =====
-- henry/wiring.py, with the start of henry/app.py and the lookups of henry/integrations/registry.py.
pub mod Discover
pub mod Runtime
pub mod Settings
mod Tests
