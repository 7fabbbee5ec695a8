-- ===== src/Migrator/Index/Clear.antt =====
-- `AlterTableClearIndex`, cmd/signozschemamigrator/schema_migrator/index_operations.go.
use Prim.Native.String.{◌++◌}
use k_o11y_otel_gateway.Prelude.{String, true, false}
use k_o11y_otel_gateway.Migrator.Text.{clause, qualified}
use k_o11y_otel_gateway.Migrator.Parts.{Index}
use k_o11y_otel_gateway.Migrator.Traits.{Traits}

pub record ClearIndex : Type 0 where
  pub cluster : String
  pub database : String
  pub table : String
  pub index : Index
  pub partition : String

unfoldable pub on_cluster : String → ClearIndex → ClearIndex
on_cluster c a = record a { cluster = c }

unfoldable pub traits : ClearIndex → Traits
traits a = record {
  waits_for_queue = false;
  queue_database = a.database;
  queue_table = a.table;
  is_mutation = true;
  is_idempotent = true;
  is_lightweight = false;
  force_migrate = false;
}

unfoldable pub to_sql : ClearIndex → String
to_sql a =
    "ALTER TABLE "
    ++ qualified a.database a.table
    ++ clause " ON CLUSTER " a.cluster
    ++ " CLEAR INDEX IF EXISTS "
    ++ a.index.name
    ++ clause " IN PARTITION " a.partition
