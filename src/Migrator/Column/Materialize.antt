-- ===== src/Migrator/Column/Materialize.antt =====
-- `AlterTableMaterializeColumn`, cmd/signozschemamigrator/schema_migrator/column_operations.go.
use Prim.Native.String.{◌++◌}
use k_o11y_otel_gateway.Prelude.{String, true, false, if◌then◌else◌, str_eq}
use k_o11y_otel_gateway.Migrator.Text.{clause, qualified}
use k_o11y_otel_gateway.Migrator.Columns.{Column, column_name}
use k_o11y_otel_gateway.Migrator.Traits.{Traits}

pub record MaterializeColumn : Type 0 where
  pub cluster : String
  pub database : String
  pub table : String
  pub column : Column
  pub partition : String
  pub partition_id : String

unfoldable pub on_cluster : String → MaterializeColumn → MaterializeColumn
on_cluster c a = record a { cluster = c }

unfoldable pub traits : MaterializeColumn → Traits
traits a = record {
  waits_for_queue = false;
  queue_database = a.database;
  queue_table = a.table;
  is_mutation = true;
  is_idempotent = true;
  is_lightweight = false;
  force_migrate = false;
}

unfoldable pub to_sql : MaterializeColumn → String
to_sql a =
    "ALTER TABLE "
    ++ qualified a.database a.table
    ++ clause " ON CLUSTER " a.cluster
    ++ " MATERIALIZE COLUMN "
    ++ column_name a.column
    ++ (if str_eq a.partition ""
        then clause " IN PARTITION " a.partition_id
        else " IN PARTITION " ++ a.partition)
