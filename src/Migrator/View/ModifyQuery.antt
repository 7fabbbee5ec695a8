-- ===== src/Migrator/View/ModifyQuery.antt =====
-- `ModifyQueryMaterializedViewOperation`, cmd/signozschemamigrator/schema_migrator/table_operations.go.
use Prim.Native.String.{◌++◌}
use k_o11y_otel_gateway.Prelude.{String, true, false}
use k_o11y_otel_gateway.Migrator.Text.{clause, qualified}
use k_o11y_otel_gateway.Migrator.Traits.{Traits}

pub record ModifyQueryMaterializedView : Type 0 where
  pub cluster : String
  pub database : String
  pub view_name : String
  pub query : String

unfoldable pub on_cluster : String → ModifyQueryMaterializedView → ModifyQueryMaterializedView
on_cluster c a = record a { cluster = c }

unfoldable pub traits : ModifyQueryMaterializedView → Traits
traits a = record {
  waits_for_queue = false;
  queue_database = a.database;
  queue_table = a.view_name;
  is_mutation = false;
  is_idempotent = true;
  is_lightweight = true;
  force_migrate = false;
}

unfoldable pub to_sql : ModifyQueryMaterializedView → String
to_sql a =
    "ALTER TABLE "
    ++ qualified a.database a.view_name
    ++ clause " ON CLUSTER " a.cluster
    ++ " MODIFY QUERY "
    ++ a.query
