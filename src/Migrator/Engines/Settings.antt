-- ===== src/Migrator/Engines/Settings.antt =====
-- `TableSetting` and `TableSettings`, cmd/signozschemamigrator/schema_migrator/table.go.
use Prim.Native.String.{◌++◌}
use k_o11y_otel_gateway.Prelude.{String, List, [], ◌∷◌, map}
use k_o11y_otel_gateway.Migrator.Text.{join}

pub record TableSetting : Type 0 where
  pub name : String
  pub value : String

unfoldable pub table_setting_sql : TableSetting → String
table_setting_sql t = t.name ++ " = " ++ t.value

unfoldable pub table_settings_sql : List TableSetting → String
table_settings_sql ts = join ", " (map table_setting_sql ts)

-- `if len(m.Settings) > 0 { sql.WriteString(" SETTINGS "); ... }`.
abbrev pub table_settings_clause : List TableSetting → String
table_settings_clause [] = ""
table_settings_clause (t ∷ ts) = " SETTINGS " ++ table_settings_sql (t ∷ ts)
