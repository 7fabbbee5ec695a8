-- ===== src/Migrator/Engines/Distribution.antt =====
-- `Distributed`, cmd/signozschemamigrator/schema_migrator/table.go.
use Prim.Native.String.{◌++◌}
use k_o11y_otel_gateway.Prelude.{String}

pub record Distributed : Type 0 where
  pub cluster : String
  pub database : String
  pub table : String
  pub sharding_key : String

unfoldable pub on_cluster : String → Distributed → Distributed
on_cluster c d = record d { cluster = c }

abbrev pub engine_type : Distributed → String
engine_type d = "Distributed"

unfoldable pub to_sql : Distributed → String
to_sql d =
    "Distributed('" ++ d.cluster ++ "', " ++ d.database ++ ", " ++ d.table ++ ", " ++ d.sharding_key
    ++ ")"
