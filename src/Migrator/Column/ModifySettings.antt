-- ===== src/Migrator/Column/ModifySettings.antt =====
-- `AlterTableModifyColumnModifySettings`, cmd/signozschemamigrator/schema_migrator/column_operations.go.
use Prim.Native.String.{◌++◌}
use k_o11y_otel_gateway.Prelude.{String, true, false, List}
use k_o11y_otel_gateway.Migrator.Text.{clause, qualified}
use k_o11y_otel_gateway.Migrator.Columns.{Column, column_name, ColumnSetting, settings_string}
use k_o11y_otel_gateway.Migrator.Traits.{Traits}

pub record ModifyColumnModifySettings : Type 0 where
  pub cluster : String
  pub database : String
  pub table : String
  pub column : Column
  pub settings : List ColumnSetting

unfoldable pub on_cluster : String → ModifyColumnModifySettings → ModifyColumnModifySettings
on_cluster c a = record a { cluster = c }

unfoldable pub traits : ModifyColumnModifySettings → Traits
traits a = record {
  waits_for_queue = false;
  queue_database = a.database;
  queue_table = a.table;
  is_mutation = false;
  is_idempotent = true;
  is_lightweight = true;
  force_migrate = false;
}

unfoldable pub to_sql : ModifyColumnModifySettings → String
to_sql a =
    "ALTER TABLE "
    ++ qualified a.database a.table
    ++ clause " ON CLUSTER " a.cluster
    ++ " MODIFY COLUMN IF EXISTS "
    ++ column_name a.column
    ++ " MODIFY SETTING "
    ++ settings_string a.settings
