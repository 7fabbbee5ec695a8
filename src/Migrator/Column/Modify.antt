-- ===== src/Migrator/Column/Modify.antt =====
-- `AlterTableModifyColumn`, cmd/signozschemamigrator/schema_migrator/column_operations.go.
use Prim.Native.String.{◌++◌}
use k_o11y_otel_gateway.Prelude.{String, Bool, true, false, not, Option, none, some, str_eq}
use k_o11y_otel_gateway.Migrator.Text.{clause, qualified}
use k_o11y_otel_gateway.Migrator.Columns.{
  Column, ColumnType, nil, column, settings_clause, codec_clause, type_string,
}
use k_o11y_otel_gateway.Migrator.Traits.{Traits}

pub record ModifyColumn : Type 0 where
  pub cluster : String
  pub database : String
  pub table : String
  pub column : Column

unfoldable pub on_cluster : String → ModifyColumn → ModifyColumn
on_cluster c a = record a { cluster = c }

-- `a.Column.Type != nil || a.Column.TTL != ""`.
unfoldable pub rewrites : Column → Bool
rewrites (column n nil codec alias default materialized ttl settings comment) = not (str_eq ttl "")
rewrites (column n t codec alias default materialized ttl settings comment) = true

-- The type is written when it is set; calling its `String` may panic.
abbrev modified_type : ColumnType → Option String
modified_type nil = some ""
modified_type t = elim (type_string t) [ none ↦ none | some s ↦ some (" " ++ s) ]

-- The name and the parts that are set.
unfoldable pub modified_column : Column → Option String
modified_column (column n t codec alias default materialized ttl settings comment) =
    elim (modified_type t) [
      | none ↦ none
      | some s ↦ some (
          n
          ++ s
          ++ clause " DEFAULT " default
          ++ codec_clause codec
          ++ clause " TTL " ttl
          ++ settings_clause settings)
    ]

unfoldable pub traits : ModifyColumn → Traits
traits a = record {
  waits_for_queue = false;
  queue_database = a.database;
  queue_table = a.table;
  is_mutation = rewrites a.column;
  is_idempotent = true;
  is_lightweight = rewrites a.column;
  force_migrate = false;
}

unfoldable pub to_sql : ModifyColumn → Option String
to_sql a = elim (modified_column a.column) [
  | none ↦ none
  | some col ↦ some (
      "ALTER TABLE "
      ++ qualified a.database a.table
      ++ clause " ON CLUSTER " a.cluster
      ++ " MODIFY COLUMN IF EXISTS "
      ++ col)
]
