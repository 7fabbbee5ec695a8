-- ===== src/Migrator/Traits.antt =====
-- What an operation answers to `ShouldWaitForDistributionQueue`, `IsMutation`, `IsIdempotent`,
-- `IsLightweight` and `ForceMigrate`, cmd/signozschemamigrator/schema_migrator/op.go.
use k_o11y_otel_gateway.Prelude.{String, Bool}

pub record Traits : Type 0 where
  pub waits_for_queue : Bool
  pub queue_database : String
  pub queue_table : String
  pub is_mutation : Bool
  pub is_idempotent : Bool
  pub is_lightweight : Bool
  pub force_migrate : Bool
