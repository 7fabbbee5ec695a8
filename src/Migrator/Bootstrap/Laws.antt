-- ===== src/Migrator/Bootstrap/Laws.antt =====
-- When the squashed migrations run, cmd/signozschemamigrator/schema_migrator/manager.go.
use k_o11y_otel_gateway.Prelude.{
  ℕ, String, false, ◌&&◌, ◌||◌, ◌==◌, List, ◌≡◌, arith, if◌then◌else◌,
}
use k_o11y_otel_gateway.Prelude.Results.{ok}
use k_o11y_otel_gateway.Migrator.Server.{Server}
use k_o11y_otel_gateway.Migrator.Manager.{Manager, returned}
use k_o11y_otel_gateway.Migrator.Migrations.{SchemaMigrationRecord}
use k_o11y_otel_gateway.Migrator.Bootstrap.{
  did_migrate_v2, should_run_squashed, run_squashed, run_all,
}

module _ {S : Type 0} (v : Server S) (m : Manager) where
  -- When the three counts can be read, the squashed migrations of a database run exactly when it has
  -- no table of the legacy migrations, and no table of the current ones or no row in it.
  pub run_squashed-counts :
      (db : String) (rs : List SchemaMigrationRecord) (legacy tables rows : ℕ) (s : S)
      → v.count_legacy db s ≡ ok legacy
      → v.count_v2_tables db s ≡ ok tables
      → v.count_v2_rows db s ≡ ok rows
      → run_squashed v m db rs s ≡ (
          if legacy == 0 && (tables == 0 || rows == 0)
          then run_all v m rs db false s
          else (s, returned))
  unfolding run_squashed should_run_squashed did_migrate_v2
  run_squashed-counts db rs legacy tables rows s a b c = ground (arith, a, b, c)
