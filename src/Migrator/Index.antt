-- ===== src/Migrator/Index.antt =====
-- The operations of cmd/signozschemamigrator/schema_migrator/index_operations.go.
pub mod Add
pub mod Drop
pub mod Materialize
pub mod Clear
