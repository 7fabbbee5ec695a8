-- ===== src/Migrator/Text.antt =====
-- What the printers of cmd/signozschemamigrator/schema_migrator use of Go's standard library:
-- `strings.Join`, `errors.Join` and the optional clause that they write to a `strings.Builder`.
use Prim.Native.String.{◌++◌}
use k_o11y_otel_gateway.Prelude.{String, List, [], ◌∷◌, if◌then◌else◌, str_eq}

unfoldable pub join : String → List String → String
join sep [] = ""
join sep (s ∷ []) = s
join sep (s ∷ t ∷ ss) = s ++ sep ++ join sep (t ∷ ss)

-- `if v != "" { sql.WriteString(keyword); sql.WriteString(v) }`.
unfoldable pub clause : String → String → String
clause keyword v = if str_eq v "" then "" else keyword ++ v

-- `sql.WriteString(database); sql.WriteString("."); sql.WriteString(table)`.
abbrev pub qualified : String → String → String
qualified database table = database ++ "." ++ table

-- The text of `errors.Join` of two errors.
abbrev pub errors_join : String → String → String
errors_join e u = e ++ "\n" ++ u
