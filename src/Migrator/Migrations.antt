-- ===== src/Migrator/Migrations.antt =====
-- The migrations of every database, up and down, at once and in the background:
-- `MigrateUpSync`, `MigrateDownSync`, `MigrateUpAsync` and `MigrateDownAsync`,
-- cmd/signozschemamigrator/schema_migrator/manager.go. The lists of migrations
-- are the repository's data, a parameter here.
pub mod Laws
use k_o11y_otel_gateway.Prelude.{
  ℕ, String, Bool, true, false, not, ◌&&◌, Option, none, some, List, [], ◌∷◌, ltb, ◌==◌,
  if◌then◌else◌,
}
use k_o11y_otel_gateway.Prelude.Results.{Result, ok, err}
use k_o11y_otel_gateway.Migrator.Operations.{Operation}
use k_o11y_otel_gateway.Migrator.Server.{Server}
use k_o11y_otel_gateway.Migrator.Manager.{
  Manager, Exit, returned, failed, panicked, runs_sync, runs_async, and_then, run_selected,
  run_operation, should_run_migration,
}

pub record SchemaMigrationRecord : Type 0 where
  pub migration_id : ℕ
  pub up_items : List Operation
  pub down_items : List Operation

-- The variables that hold the migrations, and `constants.EnableLogsMigrationsV2`.
pub record Migrations : Type 0 where
  pub traces : List SchemaMigrationRecord
  pub logs : List SchemaMigrationRecord
  pub logs_v2 : List SchemaMigrationRecord
  pub metrics : List SchemaMigrationRecord
  pub metadata : List SchemaMigrationRecord
  pub analytics : List SchemaMigrationRecord
  pub meter : List SchemaMigrationRecord
  pub enable_logs_migrations_v2 : Bool

abbrev pub logs_migrations : Migrations → List SchemaMigrationRecord
logs_migrations ms = if ms.enable_logs_migrations_v2 then ms.logs_v2 else ms.logs

-- The migrations of one database.
abbrev pub Group : Type 0
Group = String × List SchemaMigrationRecord

-- The order of the loops of each function.
unfoldable pub up_sync_groups : Migrations → List Group
up_sync_groups ms =
    ("signoz_traces", ms.traces)
    ∷ ("signoz_logs", logs_migrations ms)
    ∷ ("signoz_metrics", ms.metrics)
    ∷ ("signoz_metadata", ms.metadata)
    ∷ ("signoz_analytics", ms.analytics)
    ∷ ("signoz_meter", ms.meter)
    ∷ []

unfoldable pub down_sync_groups : Migrations → List Group
down_sync_groups ms =
    ("signoz_traces", ms.traces)
    ∷ ("signoz_logs", logs_migrations ms)
    ∷ ("signoz_metrics", ms.metrics)
    ∷ ("signoz_analytics", ms.analytics)
    ∷ ("signoz_meter", ms.meter)
    ∷ []

unfoldable pub up_async_groups : Migrations → List Group
up_async_groups ms =
    ("signoz_traces", ms.traces)
    ∷ ("signoz_metrics", ms.metrics)
    ∷ ("signoz_logs", logs_migrations ms)
    ∷ []

unfoldable pub down_async_groups : Migrations → List Group
down_async_groups ms =
    ("signoz_traces", ms.traces) ∷ ("signoz_metrics", ms.metrics) ∷ ("signoz_logs", ms.logs) ∷ []

module _ {S : Type 0} (v : Server S) (m : Manager) where
  -- The body of a loop: the migration runs when its row says so.
  unfoldable pub run_migration :
      (Operation → Bool) → List Operation → ℕ → String → List ℕ → S → S × Exit
  run_migration selects items id db versions s = elim (should_run_migration v db id versions s) [
    | none ↦ (s, panicked)
    | some true ↦ run_selected v selects m items id db false s
    | some false ↦ (s, returned)
  ]

  unfoldable pub run_group :
      (Operation → Bool)
      → (SchemaMigrationRecord → List Operation)
      → String
      → List SchemaMigrationRecord
      → List ℕ
      → S
      → S × Exit
  run_group selects items db [] versions s = (s, returned)
  run_group selects items db (r ∷ rs) versions s =
      and_then v (run_migration selects (items r) r.migration_id db versions s)
        (λ t. run_group selects items db rs versions t)

  unfoldable pub run_groups :
      (Operation → Bool)
      → (SchemaMigrationRecord → List Operation)
      → List Group
      → List ℕ
      → S
      → S × Exit
  run_groups selects items [] versions s = (s, returned)
  run_groups selects items ((db, rs) ∷ gs) versions s =
      and_then v (run_group selects items db rs versions s)
        (λ t. run_groups selects items gs versions t)

  unfoldable pub migrate_up_sync : Migrations → List ℕ → S → S × Exit
  migrate_up_sync ms up_versions s =
      run_groups runs_sync (λ r. r.up_items) (up_sync_groups ms) up_versions s

  unfoldable pub migrate_down_sync : Migrations → List ℕ → S → S × Exit
  migrate_down_sync ms down_versions s =
      run_groups runs_sync (λ r. r.down_items) (down_sync_groups ms) down_versions s

  unfoldable pub migrate_up_async : Migrations → List ℕ → S → S × Exit
  migrate_up_async ms up_versions s =
      run_groups runs_async (λ r. r.up_items) (up_async_groups ms) up_versions s

  unfoldable pub migrate_down_async : Migrations → List ℕ → S → S × Exit
  migrate_down_async ms down_versions s =
      run_groups runs_async (λ r. r.down_items) (down_async_groups ms) down_versions s
