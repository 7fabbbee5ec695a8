-- ===== src/Migrator/Index/Materialize.antt =====
-- `AlterTableMaterializeIndex`, cmd/signozschemamigrator/schema_migrator/index_operations.go.
use Prim.Native.String.{◌++◌}
use k_o11y_otel_gateway.Prelude.{String, true, false}
use k_o11y_otel_gateway.Migrator.Text.{clause, qualified}
use k_o11y_otel_gateway.Migrator.Parts.{Index}
use k_o11y_otel_gateway.Migrator.Traits.{Traits}

pub record MaterializeIndex : Type 0 where
  pub cluster : String
  pub database : String
  pub table : String
  pub index : Index
  pub partition : String

unfoldable pub on_cluster : String → MaterializeIndex → MaterializeIndex
on_cluster c a = record a { cluster = c }

unfoldable pub traits : MaterializeIndex → Traits
traits a = record {
  waits_for_queue = false;
  queue_database = a.database;
  queue_table = a.table;
  is_mutation = true;
  is_idempotent = true;
  is_lightweight = false;
  force_migrate = false;
}

unfoldable pub to_sql : MaterializeIndex → String
to_sql a =
    "ALTER TABLE "
    ++ qualified a.database a.table
    ++ clause " ON CLUSTER " a.cluster
    ++ " MATERIALIZE INDEX IF EXISTS "
    ++ a.index.name
    ++ clause " IN PARTITION " a.partition
