-- ===== src/TailSampler/Evaluator/Laws.antt =====
-- When the policy of processor/signoztailsampler/evaluator.go applies, and what it then decides.
use k_o11y_otel_gateway.Prelude.{
  ℕ, String, Bool, false, not, ◌&&◌, ◌||◌, Option, none, some, List, [], ◌∷◌, ◌≡◌, refl, ◌⊎◌, any,
  all, All, arith, if◌then◌else◌,
}
use k_o11y_otel_gateway.Prelude.Int.{ℤ}
use k_o11y_otel_gateway.Sampling.Trace.{
  TraceData, Decision, Verdict, PolicyEvaluator, sampled, not_sampled, no_result, is_sampled,
  is_no_result,
}
use k_o11y_otel_gateway.TailSampler.Evaluator.{
  DefaultEvaluator, FilterOutcome, decided, matched, is_and, filter_loop, sub_loop,
  default_evaluate,
}

-- How the loop ends, up to the decision that it returns at once.
abbrev outcome_holds : FilterOutcome → Bool
outcome_holds (matched flag) = flag
outcome_holds (decided d) = false

abbrev IsEarly : FilterOutcome → Type 0
IsEarly (matched flag) = Unit
IsEarly (decided d) = d ≡ no_result

module _ {F : Type 0} ⦃pf : PolicyEvaluator F⦄ (now : ℤ) (id : ℕ) (trace : TraceData) where
  abbrev pub verdict_of : F → Verdict
  verdict_of f = (pf.evaluate now id trace f).0

  -- A filter that works and either samples the trace or refuses it.
  abbrev pub IsPlain : F → Type 0
  IsPlain f =
      ((verdict_of f).1 ≡ none) × (((verdict_of f).0 ≡ sampled) ⊎ ((verdict_of f).0 ≡ not_sampled))

  -- Whether the filters hold for the trace: all of them, and at least one, under "and"; some of them
  -- under any other operator.
  unfoldable pub filters_hold : String → List F → Bool
  filters_hold op fs =
      any (λ f. is_sampled (verdict_of f).0) fs
      && (not (is_and op) || all (λ f. is_sampled (verdict_of f).0) fs)

  abbrev holds_after : String → Bool → List F → Bool
  holds_after op flag fs =
      (any (λ f. is_sampled (verdict_of f).0) fs || flag)
      && (not (is_and op) || all (λ f. is_sampled (verdict_of f).0) fs)

  filter_loop-holds :
      (op : String) (flag : Bool) (fs : List F)
      → All IsPlain fs
      → (outcome_holds (filter_loop now id trace op flag fs).0 ≡ holds_after op flag fs)
        × IsEarly (filter_loop now id trace op flag fs).0
  unfolding filter_loop
  filter_loop-holds op flag [] h = ground arith
  filter_loop-holds op flag (f ∷ fs) h =
      let hit = is_sampled (verdict_of f).0 || flag in
      ground (arith, filter_loop-holds op hit fs h.1)

module _ {U : Type 0} ⦃pu : PolicyEvaluator U⦄ (now : ℤ) (id : ℕ) (trace : TraceData) where
  -- The decision of the first subpolicy that has no error and has a result.
  unfoldable pub first_result : List U → Option Decision
  first_result [] = none
  first_result (u ∷ us) =
      let (decision, err) = (pu.evaluate now id trace u).0 in
      elim err [
        | some e ↦ first_result us
        | none ↦ if is_no_result decision then first_result us else some decision
      ]

  sub_loop-first_result : (us : List U) → (sub_loop now id trace us).0 ≡ first_result us
  unfolding sub_loop first_result
  sub_loop-first_result [] = refl
  sub_loop-first_result (u ∷ us) = ground (arith, sub_loop-first_result us)

module _ {F S U : Type 0} ⦃pf : PolicyEvaluator F⦄ ⦃ps : PolicyEvaluator S⦄ ⦃pu : PolicyEvaluator U⦄
    (now : ℤ) (id : ℕ) (trace : TraceData) where
  -- What the policy promises: nothing if its filters do not hold; else the first result of its
  -- subpolicies, and with none the verdict of its sampler.
  unfoldable pub promised : DefaultEvaluator F S U → Verdict
  promised de =
      if filters_hold now id trace de.filter_operator de.filters
      then elim (first_result now id trace de.sub_evaluators) [
        | some d ↦ (d, none)
        | none ↦ (ps.evaluate now id trace de.sampler).0
      ]
      else (no_result, none)

  -- With filters that each sample the trace or refuse it, a policy keeps its promise.
  pub default_evaluate-promised :
      (de : DefaultEvaluator F S U)
      → All (IsPlain now id trace) de.filters
      → (default_evaluate now id trace de).0 ≡ promised de
  unfolding default_evaluate promised filters_hold
  default_evaluate-promised de h = ground (
    arith,
    sub_loop-first_result now id trace de.sub_evaluators,
    filter_loop-holds now id trace de.filter_operator false de.filters h,
  )
