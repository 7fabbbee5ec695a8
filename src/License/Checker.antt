-- ===== src/License/Checker.antt =====
-- What the gate asks of the guard: extension/licenseguardextension/extension.go (LicenseChecker),
-- less the two accessors in floating point. `W` is the memory that the answers are read from.
use k_o11y_otel_gateway.Prelude.{Bool, String}

pub record LicenseChecker (W : Type 0) : Type 0 where
  pub is_valid : W → Bool
  pub is_grace_period : W → Bool
  pub tenant_id : W → String
  pub contract_id : W → String
