-- ===== src/Sampling/Rate.antt =====
-- processor/signoztailsampler/internal/sampling/rate_limiting.go: at most so many spans a second.
pub mod Laws
use k_o11y_otel_gateway.Prelude.{none, if◌then◌else◌}
use k_o11y_otel_gateway.Prelude.Int.{ℤ, pos, add64, eqb_ℤ, ltb_ℤ}
use k_o11y_otel_gateway.Sampling.Trace.{TraceData, Verdict, sampled, not_sampled}

pub record RateLimiting : Type 0 where
  pub current_second : ℤ
  pub spans_in_current_second : ℤ
  pub spans_per_second : ℤ

unfoldable pub new_rate_limiting : ℤ → RateLimiting
new_rate_limiting limit = record {
  current_second = pos 0;
  spans_in_current_second = pos 0;
  spans_per_second = limit;
}

-- The counter starts again in a new second.
unfoldable pub enter_second : ℤ → RateLimiting → RateLimiting
enter_second now r =
    if eqb_ℤ r.current_second now
    then r
    else record r { current_second = now; spans_in_current_second = pos 0 }

-- The trace is let through if the count stays below the limit.
unfoldable pub spend : TraceData → RateLimiting → Verdict × RateLimiting
spend trace r =
    let spans_in_second_if_sampled = add64 r.spans_in_current_second trace.span_count in
    if ltb_ℤ spans_in_second_if_sampled r.spans_per_second
    then ((sampled, none), record r { spans_in_current_second = spans_in_second_if_sampled })
    else ((not_sampled, none), r)

unfoldable pub rate_evaluate : ℤ → TraceData → RateLimiting → Verdict × RateLimiting
rate_evaluate now trace r = spend trace (enter_second now r)
