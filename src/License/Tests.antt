-- ===== src/License/Tests.antt =====
-- Runs of the licence guard and of the gate.
use k_o11y_otel_gateway.Prelude.{
  ℕ, true, false, none, some, List, [], ◌∷◌, ◌++◌, String, str_eq, ◌≡◌, refl, arith, if◌then◌else◌,
}
use k_o11y_otel_gateway.Prelude.Int.{ℤ, pos}
use k_o11y_otel_gateway.Prelude.Results.{Result, ok, err}
use k_o11y_otel_gateway.License.Guard.{
  Config, LicenseClaims, ParseWithClaims, Guard, new_license_guard_extension, verify_jwt, key_func,
  check_claims, start, validation_loop, is_valid, guard_checker, resolve_license_key,
}
use k_o11y_otel_gateway.License.Guard.Laws.{IsJudgedAt, validation_loop-IsJudgedAt}
use k_o11y_otel_gateway.License.Gate.{
  Extension, checker, other_extension, Signal, traces, logs, metrics, Pipeline,
  new_license_gate_processor,
}
use k_o11y_otel_gateway.License.Gate
use k_o11y_otel_gateway.License.Gate.Laws.{
  named, lets, let_through, refused, count, run, run-let_through,
}

abbrev acme : LicenseClaims
acme = record {
  tenant_id = "acme";
  cluster_id = "c1";
  contract_id = "k1";
  expires_at = some (pos 1_700_000_000_000_000_000);
}

-- A library that knows one token.
abbrev parse : ParseWithClaims ℕ
parse algs key token = elim (key (record { is_rsa = true; alg = "RS256" })) [
  | err e ↦ err e
  | ok k ↦
      if str_eq token "signed"
      then ok (record { claims = some acme; valid = true })
      else err "token is malformed"
]

abbrev cfg : String → Config
cfg key = record {
  license_key = key;
  license_key_env = "";
  public_key_pem = "pem";
  grace_period_days = pos 7;
  fail_mode = "open";
}

abbrev guard : String → Guard ℕ
guard key = record {
  config = cfg key;
  public_key = some 5;
  valid = false;
  grace_period = false;
  expires_at = none;
  grace_period_end = none;
  tenant_id = "";
  contract_id = "";
  pass_through = false;
  is_running = false;
  has_metrics = true;
  recorded = [];
}

verified : verify_jwt parse (guard "signed") ≡ ok (acme, pos 1_700_000_000_000_000_000)
unfolding verify_jwt key_func check_claims
verified = refl

malformed : verify_jwt parse (guard "forged") ≡ err "signature verification failed"
unfolding verify_jwt key_func
malformed = refl

abbrev three_days_later : ℤ
three_days_later = pos 1_700_259_200_000_000_000

validation_loop-IsJudgedAt_example :
    IsJudgedAt three_days_later (pos 1_700_000_000_000_000_000) 7 acme (
      validation_loop parse
        ((pos 2 ∷ pos 3 ∷ []) ++ (three_days_later ∷ []))
        (start parse (pos 1) (guard "signed")))
validation_loop-IsJudgedAt_example =
    validation_loop-IsJudgedAt parse (pos 1) (pos 2 ∷ pos 3 ∷ []) three_days_later
      (pos 1_700_000_000_000_000_000) 7 acme (guard "signed") refl refl (omega arith) verified

abbrev parse_key : String → Result ℕ
parse_key pem = if str_eq pem "pem" then ok 5 else err "no key"

no_key : resolve_license_key (λ _. "") (cfg "") ≡ ""
unfolding resolve_license_key
no_key = refl

a_key : str_eq (resolve_license_key (λ _. "") (cfg "signed")) "" ≡ false
unfolding resolve_license_key
a_key = refl

made : new_license_guard_extension (λ _. "") parse_key (ok tt) (cfg "signed") ≡ ok (guard "signed")
unfolding new_license_guard_extension resolve_license_key
made = refl

abbrev pipeline : Pipeline ℕ ℕ ℕ
pipeline = record {
  span_count = λ n. n;
  log_record_count = λ n. n;
  metric_count = λ n. n;
  next_traces = λ n. none;
  next_logs = λ n. none;
  next_metrics = λ n. none;
}

abbrev extensions : List (String × Extension (Guard ℕ))
extensions = ("health", other_extension) ∷ ("licenseguard", checker guard_checker) ∷ []

-- Traces while the licence is not valid, and logs when it is.
abbrev calls : List (Guard ℕ × Signal ℕ ℕ ℕ)
calls = (guard "signed", traces 3) ∷ (record (guard "signed") { valid = true }, logs 4) ∷ []

abbrev gate : Gate.Gate (Guard ℕ) ℕ ℕ ℕ
gate = record {
  extension_name = "licenseguard";
  host = none;
  is_resolved = false;
  license_checker = none;
  forwarded = [];
  dropped = [];
}

gate_made : new_license_gate_processor (ok tt) "licenseguard" ≡ ok gate
unfolding new_license_gate_processor
gate_made = refl

run-let_through_example :
    ((run pipeline calls (Gate.start extensions gate)).forwarded
      ≡ let_through (lets (named "licenseguard" extensions)) calls)
    × ((run pipeline calls (Gate.start extensions gate)).dropped
        ≡ refused pipeline (lets (named "licenseguard" extensions)) calls)
run-let_through_example =
    run-let_through pipeline "licenseguard" extensions calls (ok tt) gate gate_made

half_dropped : refused pipeline (lets (named "licenseguard" extensions)) calls ≡ (3, "traces") ∷ []
unfolding refused is_valid guard_checker count
half_dropped = refl
