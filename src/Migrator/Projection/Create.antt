-- ===== src/Migrator/Projection/Create.antt =====
-- `CreateProjectionOperation`, cmd/signozschemamigrator/schema_migrator/projection_operations.go.
use Prim.Native.String.{◌++◌}
use k_o11y_otel_gateway.Prelude.{String, true, false}
use k_o11y_otel_gateway.Migrator.Text.{qualified}
use k_o11y_otel_gateway.Migrator.Parts.{Projection}
use k_o11y_otel_gateway.Migrator.Traits.{Traits}

pub record CreateProjection : Type 0 where
  pub cluster : String
  pub database : String
  pub table : String
  pub projection : Projection

unfoldable pub on_cluster : String → CreateProjection → CreateProjection
on_cluster c a = record a { cluster = c }

unfoldable pub traits : CreateProjection → Traits
traits a = record {
  waits_for_queue = false;
  queue_database = a.database;
  queue_table = a.table;
  is_mutation = false;
  is_idempotent = true;
  is_lightweight = true;
  force_migrate = false;
}

unfoldable pub to_sql : CreateProjection → String
to_sql a =
    "ALTER TABLE "
    ++ qualified a.database a.table
    ++ " ADD PROJECTION IF NOT EXISTS "
    ++ a.projection.name
    ++ " ("
    ++ a.projection.query
    ++ ")"
