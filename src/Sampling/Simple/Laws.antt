-- ===== src/Sampling/Simple/Laws.antt =====
-- The policies without state against the list of all spans of a trace.
use k_o11y_otel_gateway.Prelude.{
  String, Option, Bool, none, List, [], ◌∷◌, ◌≡◌, any, arith, if◌then◌else◌,
}
use k_o11y_otel_gateway.Sampling.Trace.{Span, Traces, TraceData, Verdict, sampled, not_sampled}
use k_o11y_otel_gateway.Sampling.Scan.{scope_has}
use k_o11y_otel_gateway.Sampling.Scan.Flat.{all_spans, has_span-flat}
use k_o11y_otel_gateway.Sampling.Simple.{
  pure_check, search_spans, NumericAttributeFilter, numeric_in_range, numeric_evaluate,
  StatusCodeFilter, has_status, status_code_evaluate, TraceStateFilter, has_trace_state,
  trace_state_evaluate,
}

scope_has-any :
    (p : Span → Bool) (xs : List Span) (s : Unit {0}) → (scope_has (pure_check p) xs s).0 ≡ any p xs
unfolding scope_has
scope_has-any p [] s = ground arith
scope_has-any p (x ∷ xs) s = ground (arith, scope_has-any p xs s)

-- The trace is sampled if some span of it passes the test.
abbrev pub sampled_if_some : (Span → Bool) → Traces → Verdict
sampled_if_some p td = (if any p (all_spans td) then sampled else not_sampled, none)

search_spans-any :
    (p : Span → Bool) (td : Traces) → (search_spans p td, none) ≡ sampled_if_some p td
search_spans-any p td =
    ground (arith, has_span-flat (pure_check p) td tt, scope_has-any p (all_spans td) tt)

-- The numeric, status code and trace state policies sample a trace if and only if one of its spans,
-- under whichever resource and scope, passes their test.
pub filters-sampled_if_some :
    (parse : String → Option (String → String)) (trace : TraceData) (n : NumericAttributeFilter)
    (c : StatusCodeFilter) (t : TraceStateFilter)
    → (numeric_evaluate trace n ≡ sampled_if_some (numeric_in_range n) trace.received_batches)
      × (status_code_evaluate trace c ≡ sampled_if_some (has_status c) trace.received_batches)
      × (trace_state_evaluate parse trace t
          ≡ sampled_if_some (has_trace_state parse t) trace.received_batches)
unfolding numeric_evaluate status_code_evaluate trace_state_evaluate
filters-sampled_if_some parse trace n c t = (
  search_spans-any (numeric_in_range n) trace.received_batches,
  search_spans-any (has_status c) trace.received_batches,
  search_spans-any (has_trace_state parse t) trace.received_batches,
)
