-- ===== src/Migrator.antt =====
-- The schema migrator, cmd/signozschemamigrator/schema_migrator: the statements it can run, and the
-- manager that runs the migrations and keeps their status.
pub mod Text
pub mod Columns
pub mod Engines
pub mod Parts
pub mod Traits
pub mod Column
pub mod Index
pub mod Projection
pub mod Table
pub mod View
pub mod Rows
pub mod Operations
pub mod Server
pub mod Waits
pub mod Manager
pub mod Migrations
pub mod Bootstrap
pub mod SubColumns
mod Tests
