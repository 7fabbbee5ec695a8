-- ===== src/Migrator/Bootstrap.antt =====
-- What runs before the migrations: the databases and the tables of the migrations' status, and the
-- squashed migrations of a new installation: `createDBs`, `Bootstrap`, `shouldRunSquashed`,
-- `RunSquashedMigrations`, cmd/signozschemamigrator/schema_migrator/manager.go.
pub mod Laws
use Prim.Native.String.{◌++◌}
use k_o11y_otel_gateway.Prelude.{
  ℕ, String, Bool, true, false, not, ◌&&◌, Option, none, some, List, [], ◌∷◌, ltb, ◌==◌,
  if◌then◌else◌,
}
use k_o11y_otel_gateway.Prelude.Results.{Result, ok, err, ◌>>=◌}
use k_o11y_otel_gateway.Migrator.Text.{errors_join}
use k_o11y_otel_gateway.Migrator.Operations.{Operation}
use k_o11y_otel_gateway.Migrator.Server.{Server}
use k_o11y_otel_gateway.Migrator.Manager.{
  Manager, Exit, returned, failed, panicked, and_then, propagate, run_operation,
}
use k_o11y_otel_gateway.Migrator.Migrations.{SchemaMigrationRecord, Group}

abbrev pub dbs : List String
dbs =
    "signoz_traces" ∷ "signoz_metrics" ∷ "signoz_logs" ∷ "signoz_metadata" ∷ "signoz_analytics"
    ∷ "signoz_meter" ∷ []

-- The tables of the migrations' status, in the order of the loops of `Bootstrap`.
pub record StatusTables : Type 0 where
  pub v2_logs : List SchemaMigrationRecord
  pub v2_metrics : List SchemaMigrationRecord
  pub v2_traces : List SchemaMigrationRecord
  pub v2_metadata : List SchemaMigrationRecord
  pub v2_analytics : List SchemaMigrationRecord
  pub v2_meter : List SchemaMigrationRecord

unfoldable pub bootstrap_groups : StatusTables → List Group
bootstrap_groups ts =
    ("signoz_logs", ts.v2_logs)
    ∷ ("signoz_metrics", ts.v2_metrics)
    ∷ ("signoz_traces", ts.v2_traces)
    ∷ ("signoz_metadata", ts.v2_metadata)
    ∷ ("signoz_analytics", ts.v2_analytics)
    ∷ ("signoz_meter", ts.v2_meter)
    ∷ []

-- `errors.Join` of a fixed error and the one that was returned.
abbrev pub wrap : {S : Type 0} → String → S × Exit → S × Exit
wrap message (s, failed e) = (s, failed (errors_join message e))
wrap message (s, returned) = (s, returned)
wrap message (s, panicked) = (s, panicked)

module _ {S : Type 0} (v : Server S) (m : Manager) where
  unfoldable pub create_dbs : List String → S → S × Exit
  create_dbs [] s = (s, returned)
  create_dbs (db ∷ rest) s =
      and_then v
        (wrap "failed to create dbs" (
          propagate v
            (v.exec ("CREATE DATABASE IF NOT EXISTS " ++ db ++ " ON CLUSTER " ++ m.cluster_name) s)
            (λ t. (t, returned))))
        (λ t. create_dbs rest t)

  -- Every item of a migration, one after the other.
  unfoldable pub run_items : List Operation → ℕ → String → Bool → S → S × Exit
  run_items [] id db skip s = (s, returned)
  run_items (o ∷ os) id db skip s =
      and_then v (run_operation v m o id db skip s) (λ t. run_items os id db skip t)

  unfoldable pub run_all : List SchemaMigrationRecord → String → Bool → S → S × Exit
  run_all [] db skip s = (s, returned)
  run_all (r ∷ rs) db skip s =
      and_then v (run_items r.up_items r.migration_id db skip s) (λ t. run_all rs db skip t)

  unfoldable pub run_tables : List Group → S → S × Exit
  run_tables [] s = (s, returned)
  run_tables ((db, rs) ∷ gs) s =
      and_then v (wrap "failed to create schema_migrations_v2 table" (run_all rs db true s))
        (λ t. run_tables gs t)

  unfoldable pub bootstrap : StatusTables → S → S × Exit
  bootstrap ts s =
      and_then v (wrap "failed to create dbs" (create_dbs dbs s))
        (λ t. run_tables (bootstrap_groups ts) t)

  -- The rows are counted only when the table exists.
  unfoldable pub did_migrate_v2 : String → ℕ → S → Result Bool
  did_migrate_v2 db count_v2 s =
      if ltb 0 count_v2
      then v.count_v2_rows db s >>= (λ count_migrations. ok (ltb 0 count_migrations))
      else ok false

  unfoldable pub should_run_squashed : String → S → Result Bool
  should_run_squashed db s = v.count_legacy db s >>= (λ count.
      v.count_v2_tables db s >>= (λ count_v2.
        did_migrate_v2 db count_v2 s >>= (λ did_migrate. ok (count == 0 && not did_migrate))))

  -- The squashed migrations of one database.
  unfoldable pub run_squashed : String → List SchemaMigrationRecord → S → S × Exit
  run_squashed db rs s = elim (should_run_squashed db s) [
    | err e ↦ (s, failed e)
    | ok false ↦ (s, returned)
    | ok true ↦ run_all rs db false s
  ]

  -- Logs, metrics and traces.
  unfoldable pub run_squashed_migrations :
      (custom_retention_logs squashed_metrics squashed_traces : List SchemaMigrationRecord)
      → S
      → S × Exit
  run_squashed_migrations custom_retention_logs squashed_metrics squashed_traces s =
      let message : String = "failed to run squashed migrations" in
      and_then v (wrap message (run_squashed "signoz_logs" custom_retention_logs s)) (λ t.
        and_then v (wrap message (run_squashed "signoz_metrics" squashed_metrics t))
          (λ u. wrap message (run_squashed "signoz_traces" squashed_traces u)))
