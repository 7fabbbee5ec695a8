-- ===== src/Migrator/Table/ModifyTtl.antt =====
-- `AlterTableModifyTTL`, cmd/signozschemamigrator/schema_migrator/table_operations.go.
use Prim.Native.String.{◌++◌}
use k_o11y_otel_gateway.Prelude.{String, Bool, true, false, not, if◌then◌else◌}
use k_o11y_otel_gateway.Migrator.Text.{clause, qualified}
use k_o11y_otel_gateway.Migrator.Traits.{Traits}

pub record ModifyTtl : Type 0 where
  pub cluster : String
  pub database : String
  pub table : String
  pub ttl : String
  pub materialize_ttl_after_modify : Bool

unfoldable pub on_cluster : String → ModifyTtl → ModifyTtl
on_cluster c a = record a { cluster = c }

unfoldable pub traits : ModifyTtl → Traits
traits a = record {
  waits_for_queue = false;
  queue_database = a.database;
  queue_table = a.table;
  is_mutation = a.materialize_ttl_after_modify;
  is_idempotent = true;
  is_lightweight = not a.materialize_ttl_after_modify;
  force_migrate = false;
}

unfoldable pub to_sql : ModifyTtl → String
to_sql a =
    "ALTER TABLE "
    ++ qualified a.database a.table
    ++ clause " ON CLUSTER " a.cluster
    ++ " MODIFY TTL "
    ++ a.ttl
    ++ (if a.materialize_ttl_after_modify
        then ""
        else " SETTINGS " ++ "materialize_ttl_after_modify = 0")
