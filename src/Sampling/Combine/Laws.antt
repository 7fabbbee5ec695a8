-- ===== src/Sampling/Combine/Laws.antt =====
-- The and-policy and the composite policy: when they sample, and what they let through in a second.
use k_o11y_otel_gateway.Prelude.{
  ℕ, ◌+◌, ◌^◌, ◌≤◌, ◌<◌, String, Bool, true, false, Option, none, some, List, [], ◌∷◌, ◌≡◌, refl,
  all, arith,
}
use k_o11y_otel_gateway.Prelude.Int.{ℤ, pos, add64_pos}
use k_o11y_otel_gateway.Sampling.Trace.{
  TraceData, Verdict, PolicyEvaluator, sampled, not_sampled, invert_not_sampled, is_sampled,
}
use k_o11y_otel_gateway.Sampling.Combine.{
  SubPolicyEvalParams, new_composite, and_evaluate, admit, composite_loop, composite_enter,
  composite_evaluate,
}

abbrev pub is_none : Option String → Bool
is_none none = true
is_none (some e) = false

-- A policy without an error that does not refuse the trace, inverted or not.
abbrev pub lets_pass : Verdict → Bool
lets_pass (not_sampled, err) = false
lets_pass (invert_not_sampled, err) = false
lets_pass (_, none) = true
lets_pass (_, some e) = false

module _ {E : Type 0} ⦃p : PolicyEvaluator E⦄ (now : ℤ) (id : ℕ) (trace : TraceData) where
  -- The and-policy samples a trace exactly when each of its policies lets it pass.
  pub and_evaluate-lets_pass :
      (subs : List E)
      → is_sampled (and_evaluate now id trace subs).0.0
        ≡ all (λ e. lets_pass (p.evaluate now id trace e).0) subs
  unfolding and_evaluate
  and_evaluate-lets_pass [] = refl
  and_evaluate-lets_pass (e ∷ es) = ground (arith, and_evaluate-lets_pass es)

abbrev pub limited : {E : Type 0} → E → ℤ → SubPolicyEvalParams E
limited e limit = record { evaluator = e; max_spans_per_second = limit }

-- The total limit is compared with the counter of one subpolicy at a time: two subpolicies may each
-- let a trace of n spans through in one second although the limit is below 2 n. Here the first
-- subpolicy samples the first trace and not the second, and the second one samples that.
pub composite-exceeds_total :
    {E : Type 0} ⦃p : PolicyEvaluator E⦄ (now : ℤ) (id₁ id₂ : ℕ) (t₁ t₂ : TraceData) (e₁ e₂ : E)
    (n max_total : ℕ)
    → n ≤ max_total
    → max_total < n + n
    → max_total < 2 ^ 63
    → t₁.span_count ≡ pos n
    → t₂.span_count ≡ pos n
    → p.evaluate now id₁ t₁ e₁ ≡ ((sampled, none), e₁)
    → p.evaluate now id₂ t₂ e₁ ≡ ((not_sampled, none), e₁)
    → p.evaluate now id₂ t₂ e₂ ≡ ((sampled, none), e₂)
    → let c =
        new_composite
          (pos max_total)
          (limited e₁ (pos max_total) ∷ limited e₂ (pos max_total) ∷ []) in
      let (v₁, c₁) = composite_evaluate now id₁ t₁ c in
      (v₁ ≡ (sampled, none)) × ((composite_evaluate now id₂ t₂ c₁).0 ≡ (sampled, none))
unfolding new_composite composite_evaluate composite_enter composite_loop admit
composite-exceeds_total now id₁ id₂ t₁ t₂ e₁ e₂ n max_total le lt small s₁ s₂ a b c =
    let sum = add64_pos 0 n (omega arith) in ground (arith, s₁, s₂, a, b, c, sum)
