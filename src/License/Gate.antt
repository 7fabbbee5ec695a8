-- ===== src/License/Gate.antt =====
-- The gate, processor/licensegateprocessor/processor.go: telemetry goes on to the next consumer or
-- is dropped and counted. The payloads and the next consumers are parameters.
pub mod Laws
use k_o11y_otel_gateway.Prelude.{
  ℕ, Bool, true, false, Option, none, some, List, [], ◌∷◌, ◌++◌, String, str_eq, if◌then◌else◌,
}
use k_o11y_otel_gateway.Prelude.Results.{Result, ok, err}
use k_o11y_otel_gateway.License.Checker.{LicenseChecker}

-- A component of the collector: one that checks licences, or another.
pub data Extension (W : Type 0) : Type 0 where
  checker : LicenseChecker W → Extension W
  other_extension : Extension W

pub data Signal (T L M : Type 0) : Type 0 where
  traces : T → Signal T L M
  logs : L → Signal T L M
  metrics : M → Signal T L M

-- What the collector's libraries count, and what the next consumers answer.
pub record Pipeline (T L M : Type 0) : Type 0 where
  pub span_count : T → ℕ
  pub log_record_count : L → ℕ
  pub metric_count : M → ℕ
  pub next_traces : T → Option String
  pub next_logs : L → Option String
  pub next_metrics : M → Option String

-- `host` is what `GetExtensions` yields, in the order of the iteration. `forwarded` is what the next
-- consumers were given and `dropped` what the counters were told, the oldest first.
pub record Gate (W T L M : Type 0) : Type 0 where
  pub extension_name : String
  pub host : Option (List (String × Extension W))
  pub is_resolved : Bool
  pub license_checker : Option (LicenseChecker W)
  pub forwarded : List (Signal T L M)
  pub dropped : List (ℕ × String)

-- `new_gate_metrics` is what the meter provider answers.
unfoldable pub new_license_gate_processor :
    {W T L M : Type 0} → Result (Unit {0}) → String → Result (Gate W T L M)
new_license_gate_processor (err e) name = err "failed to initialize gate metrics"
new_license_gate_processor (ok m) name = ok (record {
  extension_name = name;
  host = none;
  is_resolved = false;
  license_checker = none;
  forwarded = [];
  dropped = [];
})

-- The loop stops at the first extension of the name, a checker or not.
unfoldable pub find_checker :
    {W : Type 0} → String → List (String × Extension W) → Option (LicenseChecker W)
find_checker name [] = none
find_checker name ((id, checker c) ∷ exts) =
    if str_eq id name then some c else find_checker name exts
find_checker name ((id, other_extension) ∷ exts) =
    if str_eq id name then none else find_checker name exts

-- A checker that is absent lets everything through.
unfoldable pub is_open : {W : Type 0} → Option (LicenseChecker W) → W → Bool
is_open none w = true
is_open (some c) w = c.is_valid w

module _ {W T L M : Type 0} where
  unfoldable pub start : List (String × Extension W) → Gate W T L M → Gate W T L M
  start extensions p = record p { host = some extensions }

  unfoldable pub get_checker : Gate W T L M → Option (LicenseChecker W) × Gate W T L M
  get_checker p = if p.is_resolved then (p.license_checker, p) else elim p.host [
    | none ↦ (p.license_checker, record p { is_resolved = true })
    | some extensions ↦
        let found : Option (LicenseChecker W) = find_checker p.extension_name extensions in
        (found, record p { is_resolved = true; license_checker = found })
  ]

  unfoldable pub forward : Signal T L M → Gate W T L M → Gate W T L M
  forward s p = record p { forwarded = p.forwarded ++ (s ∷ []) }

  unfoldable pub record_dropped : ℕ → String → Gate W T L M → Gate W T L M
  record_dropped count kind p = record p { dropped = p.dropped ++ ((count, kind) ∷ []) }

  module _ (pipeline : Pipeline T L M) (w : W) where
    unfoldable pub consume_traces : T → Gate W T L M → Option String × Gate W T L M
    consume_traces td p =
        let (found, p') = get_checker p in
        if is_open found w
        then (pipeline.next_traces td, forward (traces td) p')
        else (none, record_dropped (pipeline.span_count td) "traces" p')

    unfoldable pub consume_logs : L → Gate W T L M → Option String × Gate W T L M
    consume_logs ld p =
        let (found, p') = get_checker p in
        if is_open found w
        then (pipeline.next_logs ld, forward (logs ld) p')
        else (none, record_dropped (pipeline.log_record_count ld) "logs" p')

    unfoldable pub consume_metrics : M → Gate W T L M → Option String × Gate W T L M
    consume_metrics md p =
        let (found, p') = get_checker p in
        if is_open found w
        then (pipeline.next_metrics md, forward (metrics md) p')
        else (none, record_dropped (pipeline.metric_count md) "metrics" p')
