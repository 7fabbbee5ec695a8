-- ===== src/Sampling/Combine.antt =====
-- processor/signoztailsampler/internal/sampling/and.go and composite.go, over any policies.
pub mod Caps
pub mod Laws
use k_o11y_otel_gateway.Prelude.{
  ℕ, Bool, true, false, ◌&&◌, none, some, List, [], ◌∷◌, map, if◌then◌else◌,
}
use k_o11y_otel_gateway.Prelude.Int.{ℤ, pos, add64, eqb_ℤ, leb_ℤ}
use k_o11y_otel_gateway.Sampling.Trace.{
  TraceData, Decision, Verdict, PolicyEvaluator, unspecified, sampled, not_sampled, invert_sampled,
  invert_not_sampled,
}

abbrev pub rejects : Decision → Bool
rejects not_sampled = true
rejects invert_not_sampled = true
rejects _ = false

abbrev pub accepts : Decision → Bool
accepts sampled = true
accepts invert_sampled = true
accepts _ = false

pub record SubPolicyEvalParams (E : Type 0) : Type 0 where
  pub evaluator : E
  pub max_spans_per_second : ℤ

pub record Subpolicy (E : Type 0) : Type 0 where
  pub evaluator : E
  pub allocated_sps : ℤ
  pub sampled_sps : ℤ

pub record Composite (E : Type 0) : Type 0 where
  pub subpolicies : List (Subpolicy E)
  pub max_total_sps : ℤ
  pub current_second : ℤ

abbrev pub new_subpolicy : {E : Type 0} → SubPolicyEvalParams E → Subpolicy E
new_subpolicy p = record {
  evaluator = p.evaluator;
  allocated_sps = p.max_spans_per_second;
  sampled_sps = pos 0;
}

unfoldable pub new_composite : {E : Type 0} → ℤ → List (SubPolicyEvalParams E) → Composite E
new_composite max_total params = record {
  subpolicies = map new_subpolicy params;
  max_total_sps = max_total;
  current_second = pos 0;
}

abbrev pub reset_sps : {E : Type 0} → Subpolicy E → Subpolicy E
reset_sps sub = record sub { sampled_sps = pos 0 }

-- The counters start again in a new second.
unfoldable pub composite_enter : {E : Type 0} → ℤ → Composite E → Composite E
composite_enter now c =
    if eqb_ℤ c.current_second now
    then c
    else record c { current_second = now; subpolicies = map reset_sps c.subpolicies }

-- What the composite does with a subpolicy that wants the trace.
unfoldable pub admit : {E : Type 0} → TraceData → ℤ → Subpolicy E → Verdict × Subpolicy E
admit trace max_total sub =
    let spans_in_second_if_sampled = add64 sub.sampled_sps trace.span_count in
    if leb_ℤ spans_in_second_if_sampled sub.allocated_sps
      && leb_ℤ spans_in_second_if_sampled max_total
    then ((sampled, none), record sub { sampled_sps = spans_in_second_if_sampled })
    else ((not_sampled, none), sub)

module _ {E : Type 0} ⦃p : PolicyEvaluator E⦄ (now : ℤ) (id : ℕ) (trace : TraceData) where
  -- The loop of `And.Evaluate`, with the policies as it leaves them.
  unfoldable pub and_evaluate : List E → Verdict × List E
  and_evaluate [] = ((sampled, none), [])
  and_evaluate (sub ∷ subs) =
      let ((decision, err), sub') = p.evaluate now id trace sub in
      let (verdict, subs') = and_evaluate subs in
      elim err [
        | some e ↦ ((unspecified, some e), sub' ∷ subs)
        | none ↦
            if rejects decision then ((not_sampled, none), sub' ∷ subs) else (verdict, sub' ∷ subs')
      ]

  unfoldable pub composite_loop : ℤ → List (Subpolicy E) → Verdict × List (Subpolicy E)
  composite_loop max_total [] = ((not_sampled, none), [])
  composite_loop max_total (sub ∷ subs) =
      let ((decision, err), evaluator) = p.evaluate now id trace sub.evaluator in
      let asked = record sub { evaluator = evaluator } in
      let (verdict, subs') = composite_loop max_total subs in
      elim err [
        | some e ↦ ((unspecified, some e), asked ∷ subs)
        | none ↦
            if accepts decision
            then (let (v, sub') = admit trace max_total asked in (v, sub' ∷ subs))
            else (verdict, asked ∷ subs')
      ]

  unfoldable pub composite_evaluate : Composite E → Verdict × Composite E
  composite_evaluate c =
      let c' = composite_enter now c in
      let (verdict, subs) = composite_loop c'.max_total_sps c'.subpolicies in
      (verdict, record c' { subpolicies = subs })

-- `OnDroppedSpans` of both.
unfoldable pub on_dropped_spans : Verdict
on_dropped_spans = (sampled, none)
