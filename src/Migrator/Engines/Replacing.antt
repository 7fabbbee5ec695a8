-- ===== src/Migrator/Engines/Replacing.antt =====
-- `ReplacingMergeTree`, cmd/signozschemamigrator/schema_migrator/table.go.
use Prim.Native.String.{◌++◌}
use k_o11y_otel_gateway.Prelude.{String, true, if◌then◌else◌}
use k_o11y_otel_gateway.Migrator.Engines.Merge.{MergeTree, engine_params}

unfoldable pub with_replication : MergeTree → MergeTree
with_replication m = record m { replicated = true }

unfoldable pub engine_type : MergeTree → String
engine_type m = if m.replicated then "ReplicatedReplacingMergeTree" else "ReplacingMergeTree"

unfoldable pub to_sql : MergeTree → String
to_sql m = engine_type m ++ engine_params m
