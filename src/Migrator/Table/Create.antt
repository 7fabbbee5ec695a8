-- ===== src/Migrator/Table/Create.antt =====
-- `CreateTableOperation`, cmd/signozschemamigrator/schema_migrator/table_operations.go.
use Prim.Native.String.{◌++◌}
use k_o11y_otel_gateway.Prelude.{String, true, false, List, [], ◌∷◌, Option, none, some}
use k_o11y_otel_gateway.Migrator.Text.{join, clause, qualified}
use k_o11y_otel_gateway.Migrator.Columns.{Columns, columns_sql}
use k_o11y_otel_gateway.Migrator.Engines.{
  TableEngine, engine_sql, engine_on_cluster, engine_with_replication,
}
use k_o11y_otel_gateway.Migrator.Parts.{Index, Projection, index_sql, projection_sql}
use k_o11y_otel_gateway.Migrator.Traits.{Traits}

pub record CreateTable : Type 0 where
  pub cluster : String
  pub database : String
  pub table : String
  pub columns : Columns
  pub indexes : List Index
  pub projections : List Projection
  pub engine : TableEngine

unfoldable pub on_cluster : String → CreateTable → CreateTable
on_cluster c a = record a { cluster = c; engine = engine_on_cluster c a.engine }

unfoldable pub with_replication : CreateTable → CreateTable
with_replication a = record a { engine = engine_with_replication a.engine }

unfoldable pub traits : CreateTable → Traits
traits a = record {
  waits_for_queue = false;
  queue_database = a.database;
  queue_table = a.table;
  is_mutation = false;
  is_idempotent = true;
  is_lightweight = true;
  force_migrate = false;
}

unfoldable pub indexes_text : List Index → String
indexes_text [] = ""
indexes_text (i ∷ is) = ", " ++ index_sql i ++ indexes_text is

unfoldable pub projections_text : List Projection → String
projections_text [] = ""
projections_text (p ∷ ps) = ", " ++ projection_sql p ++ projections_text ps

unfoldable pub to_sql : CreateTable → Option String
to_sql a = elim (columns_sql a.columns) [
  | none ↦ none
  | some cols ↦ some (
      "CREATE TABLE IF NOT EXISTS "
      ++ qualified a.database a.table
      ++ clause " ON CLUSTER " a.cluster
      ++ " ("
      ++ join ", " cols
      ++ indexes_text a.indexes
      ++ projections_text a.projections
      ++ ")"
      ++ " ENGINE = "
      ++ engine_sql a.engine)
]
