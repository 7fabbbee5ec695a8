-- ===== src/Migrator/Rows/Insert.antt =====
-- `InsertIntoTable`, cmd/signozschemamigrator/schema_migrator/data_operations.go.
use Prim.Native.String.{◌++◌}
use k_o11y_otel_gateway.Prelude.{String, Bool, true, false, List, [], ◌∷◌, if◌then◌else◌}
use k_o11y_otel_gateway.Migrator.Text.{join, qualified}
use k_o11y_otel_gateway.Migrator.Traits.{Traits}

pub record InsertIntoTable : Type 0 where
  pub cluster : String
  pub database : String
  pub table : String
  pub columns : List String
  pub lightweight : Bool
  pub synchronous : Bool
  pub values : String

unfoldable pub on_cluster : String → InsertIntoTable → InsertIntoTable
on_cluster c a = record a { cluster = c }

unfoldable pub traits : InsertIntoTable → Traits
traits a = record {
  waits_for_queue = false;
  queue_database = a.database;
  queue_table = a.table;
  is_mutation = false;
  is_idempotent = false;
  is_lightweight = a.lightweight;
  force_migrate = a.synchronous;
}

abbrev is_empty : List String → Bool
is_empty [] = true
is_empty (x ∷ xs) = false

unfoldable pub to_sql : InsertIntoTable → String
to_sql a =
    "INSERT INTO "
    ++ qualified a.database a.table
    ++ (if is_empty a.columns then "" else " (" ++ join ", " a.columns ++ ")")
    ++ " VALUES "
    ++ a.values
