-- ===== src/Migrator/Projection.antt =====
-- The operations of cmd/signozschemamigrator/schema_migrator/projection_operations.go.
pub mod Create
pub mod Drop
