-- ===== src/Sampling/Latency.antt =====
-- processor/signoztailsampler/internal/sampling/latency.go: the running first start and last end,
-- with Go's arithmetic on time.
pub mod Pairs
pub mod Laws
use k_o11y_otel_gateway.Prelude.{ℕ, ◌^◌, ◌-◌, ◌%◌, ◌/◌, Bool, ◌||◌, none, ltb, ◌==◌, if◌then◌else◌}
use k_o11y_otel_gateway.Prelude.Int.{
  ℤ, pos, negsuc, ◌-ℤ◌, pos_part, neg_part, sub_ℕ, leb_ℤ, ltb_ℤ, of_bits64,
}
use k_o11y_otel_gateway.Sampling.Trace.{Span, TraceData, Verdict}
use k_o11y_otel_gateway.Sampling.Scan.{has_span_with_condition}

pub record Latency : Type 0 where
  pub threshold_ms : ℤ

-- The variables that the callback captures: uint64 nanoseconds.
pub record Extent : Type 0 where
  pub min_time : ℕ
  pub max_time : ℕ

-- `Timestamp.AsTime`: the bits read as an int64.
abbrev pub as_time : ℕ → ℤ
as_time t = of_bits64 (t % 2 ^ 64)

abbrev pub max_duration : ℤ
max_duration = pos (2 ^ 63 - 1)

abbrev pub min_duration : ℤ
min_duration = negsuc (2 ^ 63 - 1)

-- `Time.Sub`: the difference, kept within an int64 by saturation.
unfoldable pub sub_time : ℤ → ℤ → ℤ
sub_time a b =
    let d = a -ℤ b in
    if ltb_ℤ max_duration d then max_duration else if ltb_ℤ d min_duration then min_duration else d

-- `Duration.Milliseconds`: division that truncates towards zero.
unfoldable pub milliseconds : ℤ → ℤ
milliseconds d = sub_ℕ (pos_part d / 1_000_000) (neg_part d / 1_000_000)

unfoldable pub widen : Span → Extent → Extent
widen span e = record {
  min_time =
      if e.min_time == 0 || ltb span.start_timestamp e.min_time
      then span.start_timestamp
      else e.min_time;
  max_time =
      if e.max_time == 0 || ltb e.max_time span.end_timestamp
      then span.end_timestamp
      else e.max_time;
}

unfoldable pub is_slow : Latency → Extent → Bool
is_slow l e =
    leb_ℤ l.threshold_ms (milliseconds (sub_time (as_time e.max_time) (as_time e.min_time)))

unfoldable pub latency_check : Latency → Span → Extent → Bool × Extent
latency_check l span e = let e' = widen span e in (is_slow l e', e')

unfoldable pub latency_evaluate : TraceData → Latency → Verdict
latency_evaluate trace l = (
  (has_span_with_condition (latency_check l) trace.received_batches
      (record { min_time = 0; max_time = 0 })).0,
  none,
)
