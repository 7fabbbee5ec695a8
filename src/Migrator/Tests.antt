-- ===== src/Migrator/Tests.antt =====
-- Servers in memory, and runs of the manager of cmd/signozschemamigrator/schema_migrator on them.
mod Memory
mod Data
mod Runs
mod Indexes
