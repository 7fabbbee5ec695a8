-- ===== src/Migrator/Column/Add.antt =====
-- `AlterTableAddColumn`, cmd/signozschemamigrator/schema_migrator/column_operations.go.
use Prim.Native.String.{◌++◌}
use k_o11y_otel_gateway.Prelude.{String, true, false, Option, none, some}
use k_o11y_otel_gateway.Migrator.Text.{clause, qualified}
use k_o11y_otel_gateway.Migrator.Columns.{Column, column_name, column_sql}
use k_o11y_otel_gateway.Migrator.Traits.{Traits}

pub record AddColumn : Type 0 where
  pub cluster : String
  pub database : String
  pub table : String
  pub column : Column
  pub after : Option Column

unfoldable pub on_cluster : String → AddColumn → AddColumn
on_cluster c a = record a { cluster = c }

unfoldable pub traits : AddColumn → Traits
traits a = record {
  waits_for_queue = false;
  queue_database = a.database;
  queue_table = a.table;
  is_mutation = false;
  is_idempotent = true;
  is_lightweight = true;
  force_migrate = false;
}

abbrev after_clause : Option Column → String
after_clause none = ""
after_clause (some c) = " AFTER " ++ column_name c

unfoldable pub to_sql : AddColumn → Option String
to_sql a = elim (column_sql a.column) [
  | none ↦ none
  | some col ↦ some (
      "ALTER TABLE "
      ++ qualified a.database a.table
      ++ clause " ON CLUSTER " a.cluster
      ++ " ADD COLUMN IF NOT EXISTS "
      ++ col
      ++ after_clause a.after)
]
