-- ===== src/Migrator/Operations/Printing.antt =====
-- Which operations print a statement, cmd/signozschemamigrator/schema_migrator.
use k_o11y_otel_gateway.Prelude.{Bool, true}
use k_o11y_otel_gateway.Migrator.Columns.{Column, ColumnType, nil, column, column_type}
use k_o11y_otel_gateway.Migrator.Columns.Laws.{is_set, are_set}
use k_o11y_otel_gateway.Migrator.Operations.{
  Operation, add_column, modify_column, create_table, create_materialized_view,
}

-- A column may be modified without a type.
unfoldable pub modifies_set : ColumnType → Bool
modifies_set nil = true
modifies_set t = is_set t

-- The types that the statement prints.
unfoldable pub is_printable : Operation → Bool
is_printable (add_column a) = is_set (column_type a.column)
is_printable (modify_column a) = modifies_set (column_type a.column)
is_printable (create_table a) = are_set a.columns
is_printable (create_materialized_view a) = are_set a.columns
is_printable o = true
