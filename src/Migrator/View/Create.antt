-- ===== src/Migrator/View/Create.antt =====
-- `CreateMaterializedViewOperation`, cmd/signozschemamigrator/schema_migrator/table_operations.go.
use Prim.Native.String.{◌++◌}
use k_o11y_otel_gateway.Prelude.{String, true, false, List, Option, none, some}
use k_o11y_otel_gateway.Migrator.Text.{join, clause, qualified}
use k_o11y_otel_gateway.Migrator.Columns.{Columns, no_columns, columns, columns_sql}
use k_o11y_otel_gateway.Migrator.Traits.{Traits}

pub record CreateMaterializedView : Type 0 where
  pub cluster : String
  pub database : String
  pub view_name : String
  pub dest_table : String
  pub columns : Columns
  pub query : String

unfoldable pub on_cluster : String → CreateMaterializedView → CreateMaterializedView
on_cluster c a = record a { cluster = c }

unfoldable pub traits : CreateMaterializedView → Traits
traits a = record {
  waits_for_queue = false;
  queue_database = a.database;
  queue_table = a.view_name;
  is_mutation = false;
  is_idempotent = true;
  is_lightweight = true;
  force_migrate = false;
}

-- `len(c.Columns) > 0`; the second argument is the texts of the columns.
abbrev columns_clause : Columns → List String → String
columns_clause no_columns ss = ""
columns_clause (columns c cs) ss = " (" ++ join ", " ss ++ ")"

unfoldable pub to_sql : CreateMaterializedView → Option String
to_sql a = elim (columns_sql a.columns) [
  | none ↦ none
  | some cols ↦ some (
      "CREATE MATERIALIZED VIEW IF NOT EXISTS "
      ++ qualified a.database a.view_name
      ++ clause " ON CLUSTER " a.cluster
      ++ " TO "
      ++ qualified a.database a.dest_table
      ++ columns_clause a.columns cols
      ++ " AS "
      ++ a.query)
]
