-- ===== src/Migrator/Tests/Runs.antt =====
-- The manager runs the migration of Data.
use k_o11y_otel_gateway.Prelude.{true, false, none, [], ◌≡◌, refl, inr, ◌&&◌, ◌||◌}
use k_o11y_otel_gateway.Migrator.Text.{clause}
use k_o11y_otel_gateway.Migrator.Columns.{type_string, column_sql}
use k_o11y_otel_gateway.Migrator.Operations.{on_cluster, with_replication, traits, to_sql}
use k_o11y_otel_gateway.Migrator.Operations.Cluster.{names_cluster, head, Begins, to_sql-on_cluster}
use k_o11y_otel_gateway.Migrator.Manager.{
  returned, prepare, runs_sync, runs_async, guarded, propagate, execute, run_operation, and_then,
  run_selected,
}
use k_o11y_otel_gateway.Migrator.Waits.{
  wait_mutations, wait_ddl, poll, wait_mutations_on_host, get_distributed_ddl_queue, attempts,
  each_host,
}
use k_o11y_otel_gateway.Migrator.Waits.Laws.{wait_ddl-unread}
use k_o11y_otel_gateway.Migrator.Manager.Choice.{runs_once}
use k_o11y_otel_gateway.Migrator.Manager.Run.{Logged, selected, run_selected-Logged}
use k_o11y_otel_gateway.Migrator.Migrations.{migrate_down_sync, up_sync_groups}
use k_o11y_otel_gateway.Migrator.Migrations.Laws.{AreRecorded, migrate_down_sync-idle}
use k_o11y_otel_gateway.Migrator.Tests.Memory.{memory, memory-IsLawful, unreadable_queue}
use k_o11y_otel_gateway.Migrator.Tests.Data.{add, drop, manager, fresh, applied, mixed, migrations}

run_sync :
    run_selected (memory "") runs_sync manager mixed.up_items 1010 "signoz_traces" false fresh
    ≡ (applied, returned)
unfolding run_selected run_operation runs_sync prepare guarded propagate execute and_then traits
    to_sql on_cluster with_replication column_sql type_string clause wait_mutations wait_ddl poll
    wait_mutations_on_host get_distributed_ddl_queue attempts each_host
run_sync = refl

run_selected-Logged_example :
    Logged (memory "") manager (selected runs_sync mixed.up_items) fresh applied
run_selected-Logged_example =
    run_selected-Logged (memory "") (memory-IsLawful "") runs_sync manager mixed.up_items 1010
      "signoz_traces" fresh applied run_sync

groups_recorded : AreRecorded (memory "") (up_sync_groups migrations) applied
unfolding up_sync_groups
groups_recorded = ((inr refl, tt), (tt, (tt, (tt, (tt, (tt, tt))))))

migrate_down_sync-idle_example :
    migrate_down_sync (memory "") manager migrations [] applied ≡ (applied, returned)
migrate_down_sync-idle_example =
    migrate_down_sync-idle (memory "") manager migrations [] applied groups_recorded

named_add : names_cluster add ≡ true
unfolding names_cluster
named_add = refl

to_sql-on_cluster_example : Begins (head "prod" add) (to_sql (on_cluster "prod" add))
to_sql-on_cluster_example = to_sql-on_cluster "prod" add named_add

runs_once_example :
    ((runs_sync drop && runs_async drop) ≡ false) × ((runs_sync drop || runs_async drop) ≡ true)
runs_once_example = runs_once drop

wait_ddl-unread_example : (wait_ddl unreadable_queue fresh).1 ≡ none
wait_ddl-unread_example = wait_ddl-unread unreadable_queue (λ s. refl) fresh
