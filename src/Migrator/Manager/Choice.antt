-- ===== src/Migrator/Manager/Choice.antt =====
-- Which operations run at once and which in the background,
-- cmd/signozschemamigrator/schema_migrator/manager.go.
use k_o11y_otel_gateway.Prelude.{Bool, true, false, not, ◌&&◌, ◌||◌, ◌≡◌, arith}
use k_o11y_otel_gateway.Migrator.Operations.{
  Operation, modify_column_remove, insert_into_table, on_cluster, traits,
}
use k_o11y_otel_gateway.Migrator.Operations.Laws.{
  traits-on_cluster, traits-with_replication, on_cluster_last, with_replication_idem,
  on_cluster-with_replication,
}
use k_o11y_otel_gateway.Migrator.Manager.{Manager, prepare, runs_sync, runs_async}

pub traits-prepare : (m : Manager) (o : Operation) → traits (prepare m o) ≡ traits o
unfolding prepare
traits-prepare m o = ground (
  arith,
  traits-on_cluster m.cluster_name o,
  traits-with_replication o,
  traits-with_replication (on_cluster m.cluster_name o),
)

pub prepare_idem : (m : Manager) (o : Operation) → prepare m (prepare m o) ≡ prepare m o
unfolding prepare
prepare_idem m o =
    let c = m.cluster_name in
    ground (
      arith,
      on_cluster_last c c o,
      with_replication_idem o,
      with_replication_idem (on_cluster c o),
      on_cluster-with_replication c (on_cluster c o),
    )

-- The operations that neither loop runs: the removal of a property of a column, and an insert that
-- is not marked as synchronous.
abbrev pub is_skipped : Operation → Bool
is_skipped (modify_column_remove a) = true
is_skipped (insert_into_table a) = not a.synchronous
is_skipped o = false

runs_sync-runs_async : (o : Operation) → (runs_sync o && runs_async o) ≡ false
unfolding runs_sync runs_async
runs_sync-runs_async o = ground arith

runs_sync-is_skipped : (o : Operation) → (runs_sync o || runs_async o) ≡ not (is_skipped o)
unfolding runs_sync runs_async traits
runs_sync-is_skipped o = ground arith

-- Every operation is run by one of the two loops and not by both, but for the two kinds that are
-- skipped, which neither runs.
pub runs_once :
    (o : Operation)
    → ((runs_sync o && runs_async o) ≡ false) × ((runs_sync o || runs_async o) ≡ not (is_skipped o))
runs_once o = (runs_sync-runs_async o, runs_sync-is_skipped o)

-- The loop that runs an operation is the one that runs it when it is prepared.
pub runs-prepare :
    (m : Manager) (o : Operation)
    → (runs_sync (prepare m o) ≡ runs_sync o) × (runs_async (prepare m o) ≡ runs_async o)
unfolding runs_sync runs_async
runs-prepare m o = (ground (arith, traits-prepare m o), ground (arith, traits-prepare m o))
