-- ===== src/Sampling/Simple.antt =====
-- The policies without state: always_sample.go, never_sample.go, span_count_sampler.go,
-- status_code.go, trace_state_filter.go and numeric_tag_filter.go of
-- processor/signoztailsampler/internal/sampling. Logging is left out.
pub mod Laws
use Prim.Native.String.{len}
use k_o11y_otel_gateway.Prelude.{
  ◌+◌, String, Bool, true, false, not, ◌&&◌, Option, none, some, List, [], ◌∷◌, any, ltb, str_eq,
  if◌then◌else◌,
}
use k_o11y_otel_gateway.Prelude.Int.{ℤ, leb_ℤ}
use k_o11y_otel_gateway.Prelude.Results.{Result, ok, err, ◌>>=◌}
use k_o11y_otel_gateway.Sampling.Trace.{
  get_int, get, StatusCode, Span, Traces, Decision, sampled, not_sampled, TraceData, Verdict,
}
use k_o11y_otel_gateway.Sampling.Scan.{has_span_with_condition}

-- A search by a test that keeps no state.
abbrev pub pure_check : {X : Type 0} → (X → Bool) → X → Unit {0} → Bool × Unit {0}
pure_check p x s = (p x, s)

abbrev pub search_spans : (Span → Bool) → Traces → Decision
search_spans p td = (has_span_with_condition (pure_check p) td tt).0

unfoldable pub always_sample_evaluate : TraceData → Verdict
always_sample_evaluate trace = (sampled, none)

unfoldable pub never_sample_evaluate : TraceData → Verdict
never_sample_evaluate trace = (not_sampled, none)

pub record SpanCount : Type 0 where
  pub min_spans : ℤ

unfoldable pub span_count_evaluate : TraceData → SpanCount → Verdict
span_count_evaluate trace c =
    if leb_ℤ c.min_spans trace.span_count then (sampled, none) else (not_sampled, none)

pub record NumericAttributeFilter : Type 0 where
  pub key : String
  pub min_value : ℤ
  pub max_value : ℤ

-- The callback: an attribute that is no integer reads as 0.
unfoldable pub numeric_in_range : NumericAttributeFilter → Span → Bool
numeric_in_range naf span = elim (get naf.key span.attributes) [
  | none ↦ false
  | some v ↦ leb_ℤ naf.min_value (get_int v) && leb_ℤ (get_int v) naf.max_value
]

unfoldable pub numeric_evaluate : TraceData → NumericAttributeFilter → Verdict
numeric_evaluate trace naf = (search_spans (numeric_in_range naf) trace.received_batches, none)

pub record StatusCodeFilter : Type 0 where
  pub status_codes : List StatusCode

unfoldable pub parse_status_code : String → Result StatusCode
parse_status_code s =
    if str_eq s "OK"
    then ok StatusCode.ok
    else if str_eq s "ERROR"
    then ok StatusCode.error
    else if str_eq s "UNSET"
    then ok StatusCode.unset
    else err "unknown status code, supported: OK, ERROR, UNSET"

-- The loop stops at the first name that it does not know.
unfoldable pub parse_status_codes : List String → Result (List StatusCode)
parse_status_codes [] = ok []
parse_status_codes (s ∷ ss) = do c ← parse_status_code s; cs ← parse_status_codes ss; ok (c ∷ cs)

unfoldable pub new_status_code_filter : List String → Result StatusCodeFilter
new_status_code_filter [] = err "expected at least one status code to filter on"
new_status_code_filter (s ∷ ss) = do
  codes ← parse_status_codes (s ∷ ss)
  ok (record { status_codes = codes })

abbrev pub same_code : StatusCode → StatusCode → Bool
same_code StatusCode.unset StatusCode.unset = true
same_code StatusCode.ok StatusCode.ok = true
same_code StatusCode.error StatusCode.error = true
same_code _ _ = false

unfoldable pub has_status : StatusCodeFilter → Span → Bool
has_status r span = any (same_code span.status) r.status_codes

unfoldable pub status_code_evaluate : TraceData → StatusCodeFilter → Verdict
status_code_evaluate trace r = (search_spans (has_status r) trace.received_batches, none)

pub record TraceStateFilter : Type 0 where
  pub key : String
  pub values : List String

-- The values that go into the map: not empty, and short enough for a `trace_state` entry.
unfoldable pub trace_state_values : String → List String → List String
trace_state_values key [] = []
trace_state_values key (v ∷ vs) =
    let rest = trace_state_values key vs in
    if not (str_eq v "") && ltb (len key + len v) 256 then v ∷ rest else rest

unfoldable pub new_trace_state_filter : String → List String → TraceStateFilter
new_trace_state_filter key values = record { key = key; values = trace_state_values key values }

-- `tracesdk.ParseTraceState` is the OpenTelemetry SDK's: a parameter, which gives the state's
-- `Get` or fails.
module _ (parse_trace_state : String → Option (String → String)) where
  unfoldable pub has_trace_state : TraceStateFilter → Span → Bool
  has_trace_state tsf span = elim (parse_trace_state span.trace_state) [
    | none ↦ false
    | some state_get ↦ any (str_eq (state_get tsf.key)) tsf.values
  ]

  unfoldable pub trace_state_evaluate : TraceData → TraceStateFilter → Verdict
  trace_state_evaluate trace tsf = (search_spans (has_trace_state tsf) trace.received_batches, none)
