-- ===== src/Migrator/Engines/Merge.antt =====
-- `MergeTree`, cmd/signozschemamigrator/schema_migrator/table.go.
use Prim.Native.String.{◌++◌}
use k_o11y_otel_gateway.Prelude.{String, Bool, true, List, if◌then◌else◌}
use k_o11y_otel_gateway.Migrator.Text.{clause}
use k_o11y_otel_gateway.Migrator.Engines.Settings.{TableSetting, table_settings_clause}

pub record MergeTree : Type 0 where
  pub replicated : Bool
  pub order_by : String
  pub primary_key : String
  pub partition_by : String
  pub sample_by : String
  pub ttl : String
  pub settings : List TableSetting

unfoldable pub with_replication : MergeTree → MergeTree
with_replication m = record m { replicated = true }

unfoldable pub engine_params : MergeTree → String
engine_params m =
    clause " PRIMARY KEY " m.primary_key
    ++ clause " ORDER BY " m.order_by
    ++ clause " PARTITION BY " m.partition_by
    ++ clause " SAMPLE BY " m.sample_by
    ++ clause " TTL " m.ttl
    ++ table_settings_clause m.settings

unfoldable pub engine_type : MergeTree → String
engine_type m = if m.replicated then "ReplicatedMergeTree" else "MergeTree"

unfoldable pub to_sql : MergeTree → String
to_sql m = engine_type m ++ engine_params m
