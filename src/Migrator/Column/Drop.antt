-- ===== src/Migrator/Column/Drop.antt =====
-- `AlterTableDropColumn`, cmd/signozschemamigrator/schema_migrator/column_operations.go.
use Prim.Native.String.{◌++◌}
use k_o11y_otel_gateway.Prelude.{String, true, false}
use k_o11y_otel_gateway.Migrator.Text.{clause, qualified}
use k_o11y_otel_gateway.Migrator.Columns.{Column, column_name}
use k_o11y_otel_gateway.Migrator.Traits.{Traits}

pub record DropColumn : Type 0 where
  pub cluster : String
  pub database : String
  pub table : String
  pub column : Column

unfoldable pub on_cluster : String → DropColumn → DropColumn
on_cluster c a = record a { cluster = c }

unfoldable pub traits : DropColumn → Traits
traits a = record {
  waits_for_queue = true;
  queue_database = a.database;
  queue_table = a.table;
  is_mutation = true;
  is_idempotent = true;
  is_lightweight = true;
  force_migrate = false;
}

unfoldable pub to_sql : DropColumn → String
to_sql a =
    "ALTER TABLE "
    ++ qualified a.database a.table
    ++ clause " ON CLUSTER " a.cluster
    ++ " DROP COLUMN IF EXISTS "
    ++ column_name a.column
