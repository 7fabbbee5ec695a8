-- ===== src/Sampling/Latency/Laws.antt =====
-- The latency policy of latency.go against the durations between any two spans of a trace.
use k_o11y_otel_gateway.Prelude.{
  ◌^◌, ◌≤◌, ◌<◌, min, max, true, none, List, [], ◌∷◌, ◌≡◌, refl, sym, ◌∙◌, ap, All, arith,
  if◌then◌else◌, Bool-cases, inl, inr,
}
use k_o11y_otel_gateway.Prelude.Int.{◌-ℤ◌}
use k_o11y_otel_gateway.Sampling.Trace.{Span, TraceData, sampled, not_sampled}
use k_o11y_otel_gateway.Sampling.Scan.{scope_has}
use k_o11y_otel_gateway.Sampling.Scan.Flat.{all_spans, has_span-flat}
use k_o11y_otel_gateway.Sampling.Latency.{
  Latency, Extent, sub_time, widen, is_slow, latency_check, latency_evaluate,
}
use k_o11y_otel_gateway.Sampling.Latency.Pairs.{
  is_long, is_long_mono, IsTime, IsTimed, last_end, first_start, has_long_pair,
  has_long_pair-extremes,
}

is_slow-is_long :
    (l : Latency) (e : Extent)
    → e.min_time < 2 ^ 63
    → e.max_time < 2 ^ 63
    → is_slow l e ≡ is_long l.threshold_ms e.max_time e.min_time
unfolding is_slow is_long sub_time ◌-ℤ◌
is_slow-is_long l e p q = ground arith

-- The extent after all spans.
total : List Span → Extent → Extent
total [] e = e
total (x ∷ xs) e = total xs (widen x e)

record IsExtent (e : Extent) : Type 0 where
  min_set : IsTime e.min_time
  max_set : IsTime e.max_time

widen-IsExtent :
    (x : Span) (e : Extent)
    → IsTimed x
    → IsExtent e
    → IsExtent (widen x e)
      × ((widen x e).min_time ≡ min e.min_time x.start_timestamp)
      × ((widen x e).max_time ≡ max e.max_time x.end_timestamp)
unfolding widen
widen-IsExtent x e t h = ground (arith, t, h)

total_bounds :
    (xs : List Span) (e : Extent)
    → All IsTimed xs
    → IsExtent e
    → IsExtent (total xs e)
      × ((total xs e).min_time ≤ e.min_time)
      × (e.max_time ≤ (total xs e).max_time)
unfolding total
total_bounds [] e t h = (h, omega arith, omega arith)
total_bounds (x ∷ xs) e t h =
    let (h', lo, hi) = widen-IsExtent x e t.0 h in
    let (h'', lo', hi') = total_bounds xs (widen x e) t.1 h' in
    (h'', omega (arith, lo, lo'), omega (arith, hi, hi'))

total-max :
    (xs : List Span) (e : Extent)
    → All IsTimed xs
    → IsExtent e
    → (total xs e).max_time ≡ max e.max_time (last_end xs)
unfolding total last_end
total-max [] e t h = omega arith
total-max (x ∷ xs) e t h =
    let (h', lo, hi) = widen-IsExtent x e t.0 h in
    let rest = total-max xs (widen x e) t.1 h' in omega (arith, rest, hi)

total-min :
    (y : Span) (ys : List Span) (e : Extent)
    → All IsTimed (y ∷ ys)
    → IsExtent e
    → (total (y ∷ ys) e).min_time ≡ min e.min_time (first_start y ys)
unfolding total first_start
total-min y [] e t h = (widen-IsExtent y e t.0 h).1
total-min y (z ∷ zs) e t h =
    let (h', lo, hi) = widen-IsExtent y e t.0 h in
    let rest = total-min z zs (widen y e) t.1 h' in omega (arith, rest, lo)

is_slow_mono :
    (l : Latency) (e e' : Extent)
    → IsExtent e
    → IsExtent e'
    → e'.min_time ≤ e.min_time
    → e.max_time ≤ e'.max_time
    → is_slow l e ≡ true
    → is_slow l e' ≡ true
is_slow_mono l e e' h h' p q slow =
    is_slow-is_long l e' h'.min_set.1 h'.max_set.1
    ∙ is_long_mono l.threshold_ms e.max_time e'.max_time e.min_time e'.min_time q p
        (sym (is_slow-is_long l e h.min_set.1 h.max_set.1) ∙ slow)

-- The search stops at the first hit, and no later span would have undone it.
loop-total :
    (l : Latency) (x : Span) (xs : List Span) (e : Extent)
    → IsExtent (widen x e)
    → All IsTimed xs
    → (scope_has (latency_check l) (x ∷ xs) e).0 ≡ is_slow l (total xs (widen x e))
unfolding scope_has latency_check total
loop-total l x [] e h t = ground arith
loop-total l x (y ∷ ys) e h t =
    let (h', lo, hi) = widen-IsExtent y (widen x e) t.0 h in
    let (h'', lo', hi') = total_bounds (y ∷ ys) (widen x e) t h in
    elim (Bool-cases (is_slow l (widen x e))) [
      | inl slow ↦
          ground (
            arith,
            slow,
            is_slow_mono l (widen x e) (total (y ∷ ys) (widen x e)) h h'' lo' hi' slow,
          )
      | inr quick ↦ ground (arith, quick, loop-total l y ys (widen x e) h' t.1)
    ]

abbrev no_extent : Extent
no_extent = record { min_time = 0; max_time = 0 }

first-IsExtent :
    (x : Span)
    → IsTimed x
    → IsExtent (widen x no_extent)
      × ((widen x no_extent).min_time ≡ x.start_timestamp)
      × ((widen x no_extent).max_time ≡ x.end_timestamp)
unfolding widen
first-IsExtent x t = ground (arith, t)

total-extremes :
    (x : Span) (xs : List Span)
    → IsTimed x
    → All IsTimed xs
    → IsExtent (total xs (widen x no_extent))
      × ((total xs (widen x no_extent)).min_time ≡ first_start x xs)
      × ((total xs (widen x no_extent)).max_time ≡ last_end (x ∷ xs))
unfolding first_start last_end total
total-extremes x [] p t = let (h, lo, hi) = first-IsExtent x p in (h, lo, omega (arith, hi))
total-extremes x (y ∷ ys) p t =
    let (h, lo, hi) = first-IsExtent x p in
    let (h', _, _) = total_bounds (y ∷ ys) (widen x no_extent) t h in
    let low = total-min y ys (widen x no_extent) t h in
    let high = total-max (y ∷ ys) (widen x no_extent) t h in
    (h', omega (arith, low, lo), omega (arith, high, hi))

loop-has_long_pair :
    (l : Latency) (xs : List Span)
    → All IsTimed xs
    → (scope_has (latency_check l) xs no_extent).0 ≡ has_long_pair l.threshold_ms xs
unfolding scope_has has_long_pair
loop-has_long_pair l [] t = refl
loop-has_long_pair l (x ∷ xs) t =
    let (h, lo, hi) = total-extremes x xs t.0 t.1 in
    let e = total xs (widen x no_extent) in
    loop-total l x xs no_extent (first-IsExtent x t.0).0 t.1
    ∙ is_slow-is_long l e h.min_set.1 h.max_set.1
    ∙ ap (λ b. is_long l.threshold_ms b e.min_time) hi
    ∙ ap (λ a. is_long l.threshold_ms (last_end (x ∷ xs)) a) lo
    ∙ sym (has_long_pair-extremes l.threshold_ms x xs)

-- When all times are set and fit an int64, the trace is sampled if and only if one of its spans ends
-- at least the threshold, in whole milliseconds, after one of its spans starts.
pub latency_evaluate-has_long_pair :
    (trace : TraceData) (l : Latency)
    → All IsTimed (all_spans trace.received_batches)
    → latency_evaluate trace l ≡ (
      if has_long_pair l.threshold_ms (all_spans trace.received_batches)
          then sampled
          else not_sampled,
      none,
    )
unfolding latency_evaluate
latency_evaluate-has_long_pair trace l t = ground (
  arith,
  has_span-flat (latency_check l) trace.received_batches no_extent,
  loop-has_long_pair l (all_spans trace.received_batches) t,
)
