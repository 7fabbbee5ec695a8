-- ===== src/Migrator/Index/Add.antt =====
-- `AlterTableAddIndex`, cmd/signozschemamigrator/schema_migrator/index_operations.go.
use Prim.Native.String.{◌++◌}
use k_o11y_otel_gateway.Prelude.{String, true, false}
use k_o11y_otel_gateway.Prelude.Decimal.{itoa}
use k_o11y_otel_gateway.Migrator.Text.{clause, qualified}
use k_o11y_otel_gateway.Migrator.Parts.{Index}
use k_o11y_otel_gateway.Migrator.Traits.{Traits}

pub record AddIndex : Type 0 where
  pub cluster : String
  pub database : String
  pub table : String
  pub index : Index

unfoldable pub on_cluster : String → AddIndex → AddIndex
on_cluster c a = record a { cluster = c }

unfoldable pub traits : AddIndex → Traits
traits a = record {
  waits_for_queue = false;
  queue_database = a.database;
  queue_table = a.table;
  is_mutation = false;
  is_idempotent = true;
  is_lightweight = true;
  force_migrate = false;
}

unfoldable pub to_sql : AddIndex → String
to_sql a =
    "ALTER TABLE "
    ++ qualified a.database a.table
    ++ clause " ON CLUSTER " a.cluster
    ++ " ADD INDEX IF NOT EXISTS "
    ++ a.index.name
    ++ " "
    ++ a.index.expression
    ++ " TYPE "
    ++ a.index.type
    ++ " GRANULARITY "
    ++ itoa a.index.granularity
