-- ===== src/Web.antt =====
-- henry/integrations/builtins/web.py: the search and the fetch of public pages.
pub mod Domains
pub mod Pages
pub mod Fetch
pub mod Search
mod Tests
