-- ===== src/Migrator/Parts.antt =====
-- Indexes and projections of a table, cmd/signozschemamigrator/schema_migrator/index_operations.go
-- and table_operations.go.
use Prim.Native.String.{◌++◌}
use k_o11y_otel_gateway.Prelude.{String}
use k_o11y_otel_gateway.Prelude.Int.{ℤ}
use k_o11y_otel_gateway.Prelude.Decimal.{itoa}

pub record Index : Type 0 where
  pub name : String
  pub expression : String
  pub type : String
  pub granularity : ℤ

unfoldable pub index_sql : Index → String
index_sql i =
    "INDEX "
    ++ i.name
    ++ " "
    ++ i.expression
    ++ " TYPE "
    ++ i.type
    ++ " GRANULARITY "
    ++ itoa i.granularity

pub record Projection : Type 0 where
  pub name : String
  pub query : String

unfoldable pub projection_sql : Projection → String
projection_sql p = "PROJECTION " ++ p.name ++ " (" ++ p.query ++ ")"
