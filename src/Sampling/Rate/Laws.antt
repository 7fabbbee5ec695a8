-- ===== src/Sampling/Rate/Laws.antt =====
-- The rate limiter against its limit.
use k_o11y_otel_gateway.Prelude.{
  none, ltb, ℕ, ◌+◌, ◌^◌, ◌≤◌, ◌<◌, true, false, List, [], ◌∷◌, ◌≡◌, ◌≢◌, refl, ap, All, arith,
  if◌then◌else◌,
}
use k_o11y_otel_gateway.Prelude.Int.{ℤ, pos, pos_part, add64_pos, eqb_ℤ, eqb_ℤ_ne}
use k_o11y_otel_gateway.Sampling.Trace.{Verdict, TraceData, is_sampled, sampled, not_sampled}
use k_o11y_otel_gateway.Sampling.Rate.{RateLimiting, spend, enter_second, rate_evaluate}

-- The spans of the traces that the limiter lets through, of a sequence seen in one second.
unfoldable pub admitted : ℤ → List TraceData → RateLimiting → ℕ
admitted now [] r = 0
admitted now (t ∷ ts) r =
    (if is_sampled (rate_evaluate now t r).0.0 then pos_part t.span_count else 0)
    + admitted now ts (rate_evaluate now t r).1

-- The span count is a count, and half of the range of an int64 bounds it.
abbrev pub IsCount : TraceData → Type 0
IsCount t = (n : ℕ) × (t.span_count ≡ pos n) × (n ≤ 2 ^ 62)

-- In the second `now` the limiter has let `k` spans through, fewer than its limit.
record Counts (now : ℤ) (limit k : ℕ) (r : RateLimiting) : Type 0 where
  second : r.current_second ≡ now
  capped : r.spans_per_second ≡ pos limit
  count : r.spans_in_current_second ≡ pos k
  below : k < limit

-- What one call does with the count `k` and a trace of `n` spans.
abbrev decide : ℕ → ℕ → ℕ → RateLimiting → Verdict × RateLimiting
decide limit k n r =
    if ltb (k + n) limit
    then ((sampled, none), record r { spans_in_current_second = pos (k + n) })
    else ((not_sampled, none), r)

rate_evaluate-decide :
    (now : ℤ) (t : TraceData) (r : RateLimiting) (limit k n : ℕ)
    → limit ≤ 2 ^ 62
    → Counts now limit k r
    → t.span_count ≡ pos n
    → n ≤ 2 ^ 62
    → rate_evaluate now t r ≡ decide limit k n r
unfolding rate_evaluate enter_second spend
rate_evaluate-decide now t r limit k n small c e m =
    let here : eqb_ℤ r.current_second now ≡ true = rw c.second (ground arith) in
    rw (here, enter_second)
      (rw (c.count, e, c.capped) (rw (add64_pos k n (omega (arith, c.below))) (ground arith)))

rate_evaluate-Counts :
    (now : ℤ) (t : TraceData) (r : RateLimiting) (limit k : ℕ)
    → limit ≤ 2 ^ 62
    → Counts now limit k r
    → IsCount t
    → (k' : ℕ) × Counts now limit k' (rate_evaluate now t r).1
      × (k + (if is_sampled (rate_evaluate now t r).0.0 then pos_part t.span_count else 0) ≡ k')
rate_evaluate-Counts now t r limit k small c (n, e, m) =
    rw (rate_evaluate-decide now t r limit k n small c e m) (
      k + (if ltb (k + n) limit then n else 0),
      record {
        second = ground (arith, c);
        capped = ground (arith, c);
        count = ground (arith, c);
        below = ground (arith, c);
      },
      ground (arith, e),
    )

admitted-Counts :
    (now : ℤ) (ts : List TraceData) (r : RateLimiting) (limit k : ℕ)
    → limit ≤ 2 ^ 62
    → Counts now limit k r
    → All IsCount ts
    → k + admitted now ts r < limit
unfolding admitted
admitted-Counts now [] r limit k small c h = omega (arith, c.below)
admitted-Counts now (t ∷ ts) r limit k small c h =
    let (k', c', e) = rate_evaluate-Counts now t r limit k small c h.0 in
    let rest = admitted-Counts now ts (rate_evaluate now t r).1 limit k' small c' h.1 in
    omega (arith, e, rest)

entering :
    (now : ℤ) (r : RateLimiting)
    → r.current_second ≢ now
    → enter_second now r
      ≡ enter_second now (record r { current_second = now; spans_in_current_second = pos 0 })
unfolding enter_second
entering now r h =
    let there : eqb_ℤ r.current_second now ≡ false = eqb_ℤ_ne r.current_second now h in
    let here : eqb_ℤ now now ≡ true = ground arith in ground (arith, there, here)

rate_evaluate_new_second :
    (now : ℤ) (t : TraceData) (r : RateLimiting)
    → r.current_second ≢ now
    → rate_evaluate now t r
      ≡ rate_evaluate now t (record r { current_second = now; spans_in_current_second = pos 0 })
unfolding rate_evaluate
rate_evaluate_new_second now t r h = ap (spend t) (entering now r h)

admitted_new_second :
    (now : ℤ) (ts : List TraceData) (r : RateLimiting)
    → r.current_second ≢ now
    → admitted now ts r
      ≡ admitted now ts (record r { current_second = now; spans_in_current_second = pos 0 })
unfolding admitted
admitted_new_second now [] r new = refl
admitted_new_second now (t ∷ ts) r new = rw (rate_evaluate_new_second now t r new)

-- Of the traces that come in one second the limiter lets fewer spans through than its positive
-- limit, whatever their order and whatever it has let through before; the limit and the span counts
-- are at most 2 ^ 62, so that no sum leaves an int64.
pub admitted-lt-limit :
    (now : ℤ) (ts : List TraceData) (r : RateLimiting) (limit : ℕ)
    → r.current_second ≢ now
    → r.spans_per_second ≡ pos limit
    → 0 < limit
    → limit ≤ 2 ^ 62
    → All IsCount ts
    → admitted now ts r < limit
admitted-lt-limit now ts r limit new l some_room small h =
    let r' = record r { current_second = now; spans_in_current_second = pos 0 } in
    let counted : Counts now limit 0 r' = record {
      second = refl;
      capped = l;
      count = refl;
      below = some_room;
    } in
    rw (admitted_new_second now ts r new)
      (omega (arith, admitted-Counts now ts r' limit 0 small counted h))
