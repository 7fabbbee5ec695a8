-- ===== src/Migrator/Table.antt =====
-- The operations of cmd/signozschemamigrator/schema_migrator/table_operations.go.
pub mod Create
pub mod Drop
pub mod Truncate
pub mod ModifyTtl
pub mod DropTtl
pub mod ModifySettings
