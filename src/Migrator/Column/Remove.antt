-- ===== src/Migrator/Column/Remove.antt =====
-- `AlterTableModifyColumnRemove`, cmd/signozschemamigrator/schema_migrator/column_operations.go.
use Prim.Native.String.{◌++◌}
use k_o11y_otel_gateway.Prelude.{String, true, false}
use k_o11y_otel_gateway.Migrator.Text.{clause, qualified}
use k_o11y_otel_gateway.Migrator.Columns.{Column, column_name, ColumnProperty, property_text}
use k_o11y_otel_gateway.Migrator.Traits.{Traits}

pub record ModifyColumnRemove : Type 0 where
  pub cluster : String
  pub database : String
  pub table : String
  pub column : Column
  pub property : ColumnProperty

unfoldable pub on_cluster : String → ModifyColumnRemove → ModifyColumnRemove
on_cluster c a = record a { cluster = c }

unfoldable pub traits : ModifyColumnRemove → Traits
traits a = record {
  waits_for_queue = false;
  queue_database = a.database;
  queue_table = a.table;
  is_mutation = false;
  is_idempotent = false;
  is_lightweight = true;
  force_migrate = false;
}

unfoldable pub to_sql : ModifyColumnRemove → String
to_sql a =
    "ALTER TABLE "
    ++ qualified a.database a.table
    ++ clause " ON CLUSTER " a.cluster
    ++ " MODIFY COLUMN IF EXISTS "
    ++ column_name a.column
    ++ " REMOVE "
    ++ property_text a.property
