-- ===== src/Migrator/View.antt =====
-- The operations of cmd/signozschemamigrator/schema_migrator/table_operations.go, the materialized views.
pub mod Create
pub mod ModifyQuery
