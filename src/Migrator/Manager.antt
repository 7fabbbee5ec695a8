-- ===== src/Migrator/Manager.antt =====
-- One operation run by the manager, and the choice of the operations that run at once and in the
-- background: `RunOperation`, `executeSyncOperations` and the loops of `MigrateUpAsync`,
-- cmd/signozschemamigrator/schema_migrator/manager.go.
pub mod Choice
pub mod Laws
pub mod Run
use k_o11y_otel_gateway.Migrator.Text.{errors_join}
use k_o11y_otel_gateway.Prelude.{
  ℕ, String, Bool, true, false, not, ◌&&◌, ◌||◌, Option, none, some, List, [], ◌∷◌, any, ◌==◌,
  str_eq, if◌then◌else◌,
}
use k_o11y_otel_gateway.Migrator.Traits.{Traits}
use k_o11y_otel_gateway.Migrator.Waits.{wait_mutations, wait_ddl, wait_queue}
use k_o11y_otel_gateway.Migrator.Operations.{
  Operation, on_cluster, with_replication, traits, to_sql,
}
use k_o11y_otel_gateway.Migrator.Server.{
  Row, no_rows, status, unreadable, Server, in_progress_status, finished_status, failed_status,
}

pub record Manager : Type 0 where
  pub cluster_name : String
  pub replication_enabled : Bool

-- How a function of the manager ends: it returns nil, an error, or it panics.
pub data Exit : Type 0 where
  returned : Exit
  failed : String → Exit
  panicked : Exit

unfoldable pub prepare : Manager → Operation → Operation
prepare m o =
    let clustered = if str_eq m.cluster_name "" then o else on_cluster m.cluster_name o in
    if m.replication_enabled then with_replication clustered else clustered

-- `!item.IsMutation() && item.IsIdempotent() && item.IsLightweight()`.
abbrev pub is_quick : Traits → Bool
is_quick t = not t.is_mutation && (t.is_idempotent && t.is_lightweight)

-- The condition of `executeSyncOperations`.
unfoldable pub runs_sync : Operation → Bool
runs_sync o = (traits o).force_migrate || is_quick (traits o)

-- The three tests of the loops in `MigrateUpAsync` and `MigrateDownAsync`.
unfoldable pub runs_async : Operation → Bool
runs_async o =
    if (traits o).force_migrate
    then false
    else if is_quick (traits o)
    then false
    else (traits o).is_idempotent

-- What the row of a migration says of running it; `none` is the panic.
unfoldable pub row_allows : Row → Option Bool
row_allows no_rows = some true
row_allows (status st) =
    some (not (str_eq st in_progress_status) && not (str_eq st finished_status))
row_allows (unreadable e) = none

-- The versions asked for, all of them when there are none.
abbrev pub is_asked : ℕ → List ℕ → Bool
is_asked id [] = true
is_asked id (w ∷ ws) = any (λ version. id == version) (w ∷ ws)

module _ {S : Type 0} (v : Server S) where
  -- `return err`.
  unfoldable pub propagate : S × Option String → (S → S × Exit) → S × Exit
  propagate (s, none) k = k s
  propagate (s, some e) k = (s, failed e)

  -- `errors.Join(err, updateErr)` when the update fails too.
  abbrev pub joined : String → S × Option String → S × Exit
  joined e (t, none) = (t, failed e)
  joined e (t, some u) = (t, failed (errors_join e u))

  -- The failed status is written.
  abbrev pub fail : String → ℕ → String → S → S × Exit
  fail db id e s = joined e (v.update_entry db id failed_status e s)

  unfoldable pub guarded : String → ℕ → S × Option String → (S → S × Exit) → S × Exit
  guarded db id (s, none) k = k s
  guarded db id (s, some e) k = fail db id e s

  abbrev pub wait_before : Traits → S → S × Option String
  wait_before t s =
      if t.waits_for_queue then wait_queue v t.queue_database t.queue_table s else (s, none)

  abbrev pub start_entry : Bool → String → ℕ → S → S × Option String
  start_entry skip db id s = if skip then (s, none) else v.insert_entry db id in_progress_status s

  abbrev pub finish_entry : Bool → String → ℕ → S → S × Option String
  finish_entry skip db id s = if skip then (s, none) else v.update_entry db id finished_status "" s

  -- From `operation.ToSQL()` to the end.
  unfoldable pub execute : Option String → ℕ → String → Bool → S → S × Exit
  execute none id db skip s = (s, panicked)
  execute (some sql) id db skip s = guarded db id (v.exec sql s) (λ s1.
      guarded db id (wait_mutations v s1) (λ s2.
        guarded db id (wait_ddl v s2)
          (λ s3. propagate (finish_entry skip db id s3) (λ s4. (s4, returned)))))

  unfoldable pub run_operation : Manager → Operation → ℕ → String → Bool → S → S × Exit
  run_operation m o id db skip s =
      let op = prepare m o in
      guarded db id (wait_mutations v s) (λ s1. guarded db id (wait_ddl v s1) (λ s2.
        guarded db id (wait_before (traits op) s2)
          (λ s3. propagate (start_entry skip db id s3) (λ s4. execute (to_sql op) id db skip s4))))

  unfoldable pub and_then : S × Exit → (S → S × Exit) → S × Exit
  and_then (s, returned) k = k s
  and_then (s, failed e) k = (s, failed e)
  and_then (s, panicked) k = (s, panicked)

  -- The loop over the items, each run when the test selects it.
  unfoldable pub run_selected :
      (Operation → Bool) → Manager → List Operation → ℕ → String → Bool → S → S × Exit
  run_selected selects m [] id db skip s = (s, returned)
  run_selected selects m (o ∷ os) id db skip s =
      and_then (elim (selects o) [ true ↦ run_operation m o id db skip s | false ↦ (s, returned) ])
        (λ t. run_selected selects m os id db skip t)

  abbrev pub execute_sync_operations : Manager → List Operation → ℕ → String → S → S × Exit
  execute_sync_operations m os id db s = run_selected runs_sync m os id db false s

  abbrev pub execute_async_operations : Manager → List Operation → ℕ → String → S → S × Exit
  execute_async_operations m os id db s = run_selected runs_async m os id db false s

  -- `none` is the panic on a row that cannot be read.
  unfoldable pub should_run_migration : String → ℕ → List ℕ → S → Option Bool
  should_run_migration db id versions s =
      if is_asked id versions then row_allows (v.find_row db id s) else some false
