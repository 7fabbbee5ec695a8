-- ===== src/Migrator/Migrations/Laws.antt =====
-- Which migrations the loop over the downward migrations passes over,
-- cmd/signozschemamigrator/schema_migrator/manager.go.
use k_o11y_otel_gateway.Prelude.{
  ℕ, String, Bool, false, some, List, [], ◌∷◌, All, ◌≡◌, ◌⊎◌, refl, arith, inl, inr,
}
use k_o11y_otel_gateway.Migrator.Operations.{Operation}
use k_o11y_otel_gateway.Migrator.Server.{Server, Row, status}
use k_o11y_otel_gateway.Migrator.Manager.{
  Manager, returned, row_allows, should_run_migration, runs_sync, and_then,
}
use k_o11y_otel_gateway.Migrator.Migrations.{
  SchemaMigrationRecord, Migrations, Group, up_sync_groups, down_sync_groups, run_migration,
  run_group, run_groups, migrate_down_sync,
}

module _ {S : Type 0} (v : Server S) where
  -- The row says that the migration is in progress or finished.
  abbrev pub IsTaken : Row → Type 0
  IsTaken row = (row ≡ status "in-progress") ⊎ (row ≡ status "finished")

  -- The row of every migration of the database says that it is in progress or finished.
  abbrev pub IsRecorded : String → List SchemaMigrationRecord → S → Type 0
  IsRecorded db rs s = All (λ r. IsTaken (v.find_row db r.migration_id s)) rs

  abbrev pub AreRecorded : List Group → S → Type 0
  AreRecorded [] s = Unit
  AreRecorded ((db, rs) ∷ gs) s = IsRecorded db rs s × AreRecorded gs s

  should_run_migration-recorded :
      (db : String) (id : ℕ) (versions : List ℕ) (s : S)
      → IsTaken (v.find_row db id s)
      → should_run_migration v db id versions s ≡ some false
  unfolding should_run_migration row_allows
  should_run_migration-recorded db id versions s (inl h) = ground (arith, h)
  should_run_migration-recorded db id versions s (inr h) = ground (arith, h)

  run_migration-refused :
      (m : Manager) (selects : Operation → Bool) (items : List Operation) (id : ℕ) (db : String)
      (versions : List ℕ) (s : S)
      → should_run_migration v db id versions s ≡ some false
      → run_migration v m selects items id db versions s ≡ (s, returned)
  unfolding run_migration
  run_migration-refused m selects items id db versions s e = ground (arith, e)

  module _ (m : Manager) (selects : Operation → Bool)
      (items : SchemaMigrationRecord → List Operation) (versions : List ℕ) (s : S) where
    run_group-idle :
        (db : String) (rs : List SchemaMigrationRecord)
        → IsRecorded db rs s
        → run_group v m selects items db rs versions s ≡ (s, returned)
    unfolding run_group and_then
    run_group-idle db [] h = refl
    run_group-idle db (r ∷ rs) (h, hs) = ground (
      arith,
      run_migration-refused m selects (items r) r.migration_id db versions s
          (should_run_migration-recorded db r.migration_id versions s h),
      run_group-idle db rs hs,
    )

    pub run_groups-idle :
        (gs : List Group)
        → AreRecorded gs s
        → run_groups v m selects items gs versions s ≡ (s, returned)
    unfolding run_groups and_then
    run_groups-idle [] h = refl
    run_groups-idle ((db, rs) ∷ gs) (h, hs) =
        ground (arith, run_group-idle db rs h, run_groups-idle gs hs)

  -- When the row of every upward migration says that it is in progress or finished, MigrateDownSync
  -- returns without an error and leaves the servers as they are.
  pub migrate_down_sync-idle :
      (m : Manager) (ms : Migrations) (versions : List ℕ) (s : S)
      → AreRecorded (up_sync_groups ms) s
      → migrate_down_sync v m ms versions s ≡ (s, returned)
  unfolding migrate_down_sync up_sync_groups down_sync_groups
  migrate_down_sync-idle m ms versions s (t, (l, (me, (md, (a, (mt, u)))))) =
      run_groups-idle m runs_sync (λ r. r.down_items) versions s (down_sync_groups ms)
        (t, (l, (me, (a, (mt, tt)))))
