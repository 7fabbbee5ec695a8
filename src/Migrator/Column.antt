-- ===== src/Migrator/Column.antt =====
-- The operations of cmd/signozschemamigrator/schema_migrator/column_operations.go.
pub mod Add
pub mod Drop
pub mod Modify
pub mod Remove
pub mod ModifySettings
pub mod ResetSettings
pub mod Materialize
