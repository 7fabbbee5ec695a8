-- ===== src/Migrator/Rows.antt =====
-- The operations of cmd/signozschemamigrator/schema_migrator/data_operations.go.
pub mod Insert
