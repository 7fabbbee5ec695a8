-- ===== src/Migrator/Table/Drop.antt =====
-- `DropTableOperation`, cmd/signozschemamigrator/schema_migrator/table_operations.go.
use Prim.Native.String.{◌++◌}
use k_o11y_otel_gateway.Prelude.{String, true, false, List}
use k_o11y_otel_gateway.Migrator.Text.{clause, qualified}
use k_o11y_otel_gateway.Migrator.Engines.{TableSetting, table_settings_clause}
use k_o11y_otel_gateway.Migrator.Traits.{Traits}

pub record DropTable : Type 0 where
  pub cluster : String
  pub database : String
  pub table : String
  pub settings : List TableSetting

unfoldable pub on_cluster : String → DropTable → DropTable
on_cluster c a = record a { cluster = c }

unfoldable pub traits : DropTable → Traits
traits a = record {
  waits_for_queue = false;
  queue_database = a.database;
  queue_table = a.table;
  is_mutation = true;
  is_idempotent = true;
  is_lightweight = true;
  force_migrate = false;
}

unfoldable pub to_sql : DropTable → String
to_sql a =
    "DROP TABLE IF EXISTS "
    ++ qualified a.database a.table
    ++ clause " ON CLUSTER " a.cluster
    ++ table_settings_clause a.settings
