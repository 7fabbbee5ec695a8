-- ===== src/Migrator/Table/ModifySettings.antt =====
-- `AlterTableModifySettings`, cmd/signozschemamigrator/schema_migrator/table_operations.go.
use Prim.Native.String.{◌++◌}
use k_o11y_otel_gateway.Prelude.{String, true, false, List}
use k_o11y_otel_gateway.Migrator.Text.{clause, qualified}
use k_o11y_otel_gateway.Migrator.Engines.{TableSetting, table_settings_sql}
use k_o11y_otel_gateway.Migrator.Traits.{Traits}

pub record ModifySettings : Type 0 where
  pub cluster : String
  pub database : String
  pub table : String
  pub settings : List TableSetting

unfoldable pub on_cluster : String → ModifySettings → ModifySettings
on_cluster c a = record a { cluster = c }

unfoldable pub traits : ModifySettings → Traits
traits a = record {
  waits_for_queue = false;
  queue_database = a.database;
  queue_table = a.table;
  is_mutation = false;
  is_idempotent = true;
  is_lightweight = true;
  force_migrate = false;
}

unfoldable pub to_sql : ModifySettings → String
to_sql a =
    "ALTER TABLE "
    ++ qualified a.database a.table
    ++ clause " ON CLUSTER " a.cluster
    ++ " MODIFY SETTING "
    ++ table_settings_sql a.settings
