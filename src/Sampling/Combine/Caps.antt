-- ===== src/Sampling/Combine/Caps.antt =====
-- How many spans a composite policy lets through in a second,
-- processor/signoztailsampler/internal/sampling/composite.go.
use k_o11y_otel_gateway.Prelude.{
  ℕ, ◌+◌, ◌^◌, ◌≤◌, ◌<◌, true, false, List, [], ◌∷◌, ◌≡◌, ◌≢◌, refl, map, All, arith, leb,
  if◌then◌else◌,
}
use k_o11y_otel_gateway.Prelude.Int.{ℤ, pos, pos_part, add64_pos, eqb_ℤ, eqb_ℤ_ne}
use k_o11y_otel_gateway.Sampling.Trace.{TraceData, Verdict, PolicyEvaluator, is_sampled}
use k_o11y_otel_gateway.Sampling.Combine.{
  Subpolicy, Composite, reset_sps, admit, composite_loop, composite_enter, composite_evaluate,
}

abbrev pub least : ℕ → ℕ → ℕ
least a b = if leb a b then a else b

-- What the subpolicies may let through in a second: each its own limit, and not more than the total.
unfoldable pub allowed : {E : Type 0} → ℕ → List (Subpolicy E) → ℕ
allowed m [] = 0
allowed m (sub ∷ subs) = least (pos_part sub.allocated_sps) m + allowed m subs

unfoldable spent : {E : Type 0} → List (Subpolicy E) → ℕ
spent [] = 0
spent (sub ∷ subs) = pos_part sub.sampled_sps + spent subs

abbrev pub if_sampled : Verdict → ℕ → ℕ
if_sampled v n = if is_sampled v.0 then n else 0

-- A trace whose span count is not negative and at most 2^62.
abbrev pub IsSized : ℕ × TraceData → Type 0
IsSized (id, trace) =
    (trace.span_count ≡ pos (pos_part trace.span_count)) × (pos_part trace.span_count ≤ 2 ^ 62)

module _ {E : Type 0} where
  abbrev IsWithin : ℕ → Subpolicy E → Type 0
  IsWithin m sub =
      (sub.sampled_sps ≡ pos (pos_part sub.sampled_sps))
      × (pos_part sub.sampled_sps ≤ least (pos_part sub.allocated_sps) m)

  admit-IsWithin :
      (trace : TraceData) (m n : ℕ) (sub : Subpolicy E)
      → trace.span_count ≡ pos n
      → m + n < 2 ^ 63
      → IsWithin m sub
      → let (v, sub') = admit trace (pos m) sub in
        IsWithin m sub'
        × (pos_part sub'.sampled_sps ≡ pos_part sub.sampled_sps + if_sampled v n)
        × (sub'.allocated_sps ≡ sub.allocated_sps)
  unfolding admit
  admit-IsWithin trace m n sub count small (p, w) =
      let sum = add64_pos (pos_part sub.sampled_sps) n (ground (arith, w, small)) in
      ground (arith, count, p, w, sum)

  reset-IsWithin : (m : ℕ) (subs : List (Subpolicy E)) → All (IsWithin m) (map reset_sps subs)
  reset-IsWithin m [] = tt
  reset-IsWithin m (sub ∷ subs) = ((refl, omega arith), reset-IsWithin m subs)

  reset-spent : (m : ℕ) (subs : List (Subpolicy E)) → spent (map reset_sps subs) ≡ 0
  unfolding spent
  reset-spent m [] = refl
  reset-spent m (sub ∷ subs) = ground (arith, reset-spent m subs)

  reset-allowed :
      (m : ℕ) (subs : List (Subpolicy E)) → allowed m (map reset_sps subs) ≡ allowed m subs
  unfolding allowed
  reset-allowed m [] = refl
  reset-allowed m (sub ∷ subs) = ground (arith, reset-allowed m subs)

  spent-allowed :
      (m : ℕ) (subs : List (Subpolicy E)) → All (IsWithin m) subs → spent subs ≤ allowed m subs
  unfolding spent allowed
  spent-allowed m [] w = omega arith
  spent-allowed m (sub ∷ subs) ((p, w), ws) = omega (arith, w, spent-allowed m subs ws)

module _ {E : Type 0} ⦃p : PolicyEvaluator E⦄ (now : ℤ) where
  composite_loop-IsWithin :
      (id : ℕ) (trace : TraceData) (m n : ℕ) (subs : List (Subpolicy E))
      → trace.span_count ≡ pos n
      → m + n < 2 ^ 63
      → All (IsWithin m) subs
      → let (v, subs') = composite_loop now id trace (pos m) subs in
        All (IsWithin m) subs'
        × (spent subs' ≡ spent subs + if_sampled v n)
        × (allowed m subs' ≡ allowed m subs)
  unfolding composite_loop spent allowed
  composite_loop-IsWithin id trace m n [] count small w = (tt, refl, refl)
  composite_loop-IsWithin id trace m n (sub ∷ subs) count small (w, ws) =
      let asked : Subpolicy E = record sub {
        evaluator = (p.evaluate now id trace sub.evaluator).1;
      } in
      ground (
        arith,
        w,
        admit-IsWithin trace m n asked count small w,
        composite_loop-IsWithin id trace m n subs count small ws,
      )

  -- The spans of the traces that are let through, of those that come in one second.
  unfoldable pub let_through : List (ℕ × TraceData) → Composite E → ℕ
  let_through [] c = 0
  let_through ((id, trace) ∷ traces) c =
      let (v, c') = composite_evaluate now id trace c in
      if_sampled v (pos_part trace.span_count) + let_through traces c'

  entered-same : (c : Composite E) → c.current_second ≡ now → composite_enter now c ≡ c
  unfolding composite_enter
  entered-same c e = ground (arith, e)

  evaluated :
      (id : ℕ) (trace : TraceData) (m : ℕ) (c : Composite E)
      → c.current_second ≡ now
      → c.max_total_sps ≡ pos m
      → let (v, subs) = composite_loop now id trace (pos m) c.subpolicies in
        composite_evaluate now id trace c ≡ (v, record c { subpolicies = subs })
  unfolding composite_evaluate
  evaluated id trace m c second max = ground (arith, entered-same c second, max)

  let_through-spent :
      (m : ℕ) (traces : List (ℕ × TraceData)) (c : Composite E)
      → m < 2 ^ 62
      → c.current_second ≡ now
      → c.max_total_sps ≡ pos m
      → All IsSized traces
      → All (IsWithin m) c.subpolicies
      → let_through traces c + spent c.subpolicies ≤ allowed m c.subpolicies
  unfolding let_through
  let_through-spent m [] c small second max z w = omega (arith, spent-allowed m c.subpolicies w)
  let_through-spent m ((id, trace) ∷ traces) c small second max ((count, size), z) w =
      let (v, subs) = composite_loop now id trace (pos m) c.subpolicies in
      let next : Composite E = record c { subpolicies = subs } in
      let (w', s', a') =
        composite_loop-IsWithin id trace m (pos_part trace.span_count) c.subpolicies count
          (omega (arith, small, size)) w in
      ground (
        arith,
        evaluated id trace m c second max,
        s',
        a',
        let_through-spent m traces next small second max z w',
      )

  -- The composite in its new second.
  abbrev opened : Composite E → Composite E
  opened c = record c { current_second = now; subpolicies = map reset_sps c.subpolicies }

  composite_evaluate-opened :
      (id : ℕ) (trace : TraceData) (c : Composite E)
      → c.current_second ≢ now
      → composite_evaluate now id trace c ≡ composite_evaluate now id trace (opened c)
  unfolding composite_evaluate composite_enter
  composite_evaluate-opened id trace c other =
      let there : eqb_ℤ c.current_second now ≡ false = eqb_ℤ_ne c.current_second now other in
      let here : eqb_ℤ now now ≡ true = ground arith in ground (arith, there, here)

  -- Of the traces that come in one new second a composite policy lets through, by its policies together,
  -- no more spans than the sum of the limits of its subpolicies, of which none counts for more than
  -- the total limit; for a total limit of 0 to 2^62 - 1 and span counts of 0 to 2^62.
  pub let_through-allowed :
      (m : ℕ) (traces : List (ℕ × TraceData)) (c : Composite E)
      → m < 2 ^ 62
      → c.current_second ≢ now
      → c.max_total_sps ≡ pos m
      → All IsSized traces
      → let_through traces c ≤ allowed m c.subpolicies
  unfolding let_through
  let_through-allowed m [] c small other max z = omega arith
  let_through-allowed m ((id, trace) ∷ traces) c small other max z = ground (
    arith,
    composite_evaluate-opened id trace c other,
    let_through-spent m ((id, trace) ∷ traces) (opened c) small refl max z
        (reset-IsWithin m c.subpolicies),
    reset-spent m c.subpolicies,
    reset-allowed m c.subpolicies,
  )
