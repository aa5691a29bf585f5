-- ===== src/Db.antt =====
-- henry/db: the tables of models.py and the migrations, over a database that runs their operations.
pub mod Schema
pub mod Migrations
pub mod Models
pub mod Upgraded
pub mod Undone
pub mod Overrides
mod Tests
