-- ===== src/Migrator/Engines.antt =====
-- Table engines and their settings, cmd/signozschemamigrator/schema_migrator/table.go.
pub mod Merge
pub mod Replacing
pub mod Aggregating
pub mod Summing
pub mod Distribution
pub mod Settings
use k_o11y_otel_gateway.Prelude.{String}
use k_o11y_otel_gateway.Migrator.Engines.Replacing
use k_o11y_otel_gateway.Migrator.Engines.Aggregating
use k_o11y_otel_gateway.Migrator.Engines.Summing
use k_o11y_otel_gateway.Migrator.Engines.Merge
use k_o11y_otel_gateway.Migrator.Engines.Distribution
use k_o11y_otel_gateway.Migrator.Engines.Merge.{MergeTree}
use k_o11y_otel_gateway.Migrator.Engines.Distribution.{Distributed}
pub use k_o11y_otel_gateway.Migrator.Engines.Settings.{
  TableSetting, table_settings_sql, table_settings_clause,
}

-- The structs that implement `TableEngine`. The last three hold a `MergeTree` and nothing else.
pub data TableEngine : Type 0 where
  merge_tree : MergeTree → TableEngine
  replacing_merge_tree : MergeTree → TableEngine
  aggregating_merge_tree : MergeTree → TableEngine
  summing_merge_tree : MergeTree → TableEngine
  distributed : Distributed → TableEngine

unfoldable pub engine_type : TableEngine → String
unfolding Merge.engine_type Replacing.engine_type Aggregating.engine_type Summing.engine_type
engine_type (merge_tree m) = Merge.engine_type m
engine_type (replacing_merge_tree m) = Replacing.engine_type m
engine_type (aggregating_merge_tree m) = Aggregating.engine_type m
engine_type (summing_merge_tree m) = Summing.engine_type m
engine_type (distributed d) = Distribution.engine_type d

unfoldable pub engine_sql : TableEngine → String
unfolding Merge.to_sql Replacing.to_sql Aggregating.to_sql Summing.to_sql Distribution.to_sql
engine_sql (merge_tree m) = Merge.to_sql m
engine_sql (replacing_merge_tree m) = Replacing.to_sql m
engine_sql (aggregating_merge_tree m) = Aggregating.to_sql m
engine_sql (summing_merge_tree m) = Summing.to_sql m
engine_sql (distributed d) = Distribution.to_sql d

-- A no-op for all but `Distributed`.
unfoldable pub engine_on_cluster : String → TableEngine → TableEngine
unfolding Distribution.on_cluster
engine_on_cluster c (distributed d) = distributed (Distribution.on_cluster c d)
engine_on_cluster c e = e

unfoldable pub engine_with_replication : TableEngine → TableEngine
unfolding Merge.with_replication Replacing.with_replication Aggregating.with_replication
    Summing.with_replication
engine_with_replication (merge_tree m) = merge_tree (Merge.with_replication m)
engine_with_replication (replacing_merge_tree m) =
    replacing_merge_tree (Replacing.with_replication m)
engine_with_replication (aggregating_merge_tree m) =
    aggregating_merge_tree (Aggregating.with_replication m)
engine_with_replication (summing_merge_tree m) = summing_merge_tree (Summing.with_replication m)
engine_with_replication (distributed d) = distributed d
