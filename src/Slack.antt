-- ===== src/Slack.antt =====
-- henry/slack: what comes from Slack and what goes back to it.
pub mod Split
pub mod App
pub mod Dispatch
pub mod Context
mod Tests
