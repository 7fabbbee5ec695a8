-- ===== src/Migrator/Column/ResetSettings.antt =====
-- `AlterTableModifyColumnResetSettings`, cmd/signozschemamigrator/schema_migrator/column_operations.go.
use Prim.Native.String.{◌++◌}
use k_o11y_otel_gateway.Prelude.{String, true, false, List}
use k_o11y_otel_gateway.Migrator.Text.{join, clause, qualified}
use k_o11y_otel_gateway.Migrator.Columns.{Column, column_name, ColumnSetting, settings_names}
use k_o11y_otel_gateway.Migrator.Traits.{Traits}

pub record ModifyColumnResetSettings : Type 0 where
  pub cluster : String
  pub database : String
  pub table : String
  pub column : Column
  pub settings : List ColumnSetting

unfoldable pub on_cluster : String → ModifyColumnResetSettings → ModifyColumnResetSettings
on_cluster c a = record a { cluster = c }

unfoldable pub traits : ModifyColumnResetSettings → Traits
traits a = record {
  waits_for_queue = false;
  queue_database = a.database;
  queue_table = a.table;
  is_mutation = false;
  is_idempotent = true;
  is_lightweight = true;
  force_migrate = false;
}

unfoldable pub to_sql : ModifyColumnResetSettings → String
to_sql a =
    "ALTER TABLE "
    ++ qualified a.database a.table
    ++ clause " ON CLUSTER " a.cluster
    ++ " MODIFY COLUMN IF EXISTS "
    ++ column_name a.column
    ++ " RESET SETTING "
    ++ join ", " (settings_names a.settings)
