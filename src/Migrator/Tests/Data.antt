-- ===== src/Migrator/Tests/Data.antt =====
-- A migration of the traces, a manager and a state of the servers for the tests.
use k_o11y_otel_gateway.Prelude.{String, true, false, none, [], ◌∷◌}
use k_o11y_otel_gateway.Migrator.Columns.{ColumnType, Column, column, nil, primitive, enum_string}
use k_o11y_otel_gateway.Migrator.Operations.{Operation, add_column, drop_column}
use k_o11y_otel_gateway.Migrator.Manager.{Manager}
use k_o11y_otel_gateway.Migrator.Migrations.{SchemaMigrationRecord, Migrations}
use k_o11y_otel_gateway.Migrator.Tests.Memory.{Memory}

abbrev named : String → ColumnType → Column
named n t = column n t "" "" "" "" "" none ""

abbrev pub add : Operation
add = add_column (record {
  cluster = "";
  database = "signoz_traces";
  table = "spans";
  column = named "tenant" (primitive "String" enum_string);
  after = none;
})

abbrev pub drop : Operation
drop =
    drop_column (record {
      cluster = "";
      database = "signoz_traces";
      table = "spans";
      column = named "old" nil;
    })

abbrev pub manager : Manager
manager = record { cluster_name = "prod"; replication_enabled = true }

abbrev pub add_sql : String
add_sql = "ALTER TABLE signoz_traces.spans ON CLUSTER prod ADD COLUMN IF NOT EXISTS tenant String"

abbrev pub fresh : Memory
fresh = record { rows = []; log = [] }

-- What the first operation leaves.
abbrev pub applied : Memory
applied = record { rows = ("signoz_traces", 1010, "finished") ∷ []; log = add_sql ∷ [] }

abbrev pub mixed : SchemaMigrationRecord
mixed = record { migration_id = 1010; up_items = add ∷ drop ∷ []; down_items = drop ∷ [] }

abbrev pub migrations : Migrations
migrations = record {
  traces = mixed ∷ [];
  logs = [];
  logs_v2 = [];
  metrics = [];
  metadata = [];
  analytics = [];
  meter = [];
  enable_logs_migrations_v2 = false;
}
