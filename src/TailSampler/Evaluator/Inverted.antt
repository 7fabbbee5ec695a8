-- ===== src/TailSampler/Evaluator/Inverted.antt =====
-- Inverted string filters in a policy of processor/signoztailsampler/evaluator.go.
use k_o11y_otel_gateway.Prelude.{
  ℕ, String, Bool, true, false, ◌||◌, ◌∙◌, none, List, [], ◌∷◌, ◌≡◌, refl, ◌⊎◌, inl, inr, arith,
  if◌then◌else◌, Bool-cases,
}
use k_o11y_otel_gateway.Prelude.Int.{ℤ}
use k_o11y_otel_gateway.Sampling.Trace.{
  Attributes, Span, Traces, TraceData, Decision, PolicyEvaluator, is_sampled, no_result,
  invert_sampled, invert_not_sampled,
}
use k_o11y_otel_gateway.Sampling.Scan.{
  invert_has_instrumentation_library_span_with_condition,
  invert_has_resource_or_span_with_condition,
}
use k_o11y_otel_gateway.Sampling.Attribute.{
  LruCache, StringAttributeFilter, string_evaluate, invert_resource_matches, invert_span_matches,
}
use k_o11y_otel_gateway.TailSampler.Evaluator.{
  DefaultEvaluator, Filter, string_filter, numeric_filter, Sampler, sampler_policy, filter_evaluate,
  filter_policy, matched, filter_loop, default_evaluate,
}

abbrev IsInverse : Decision → Type 0
IsInverse d = (d ≡ invert_sampled) ⊎ (d ≡ invert_not_sampled)

module _ {S : Type 0} (check_resource : Attributes → S → Bool × S)
    (check_span : Span → S → Bool × S) where
  invert_search-IsInverse :
      (td : Traces) (s : S)
      → IsInverse (invert_has_resource_or_span_with_condition check_resource check_span td s).0
  unfolding invert_has_resource_or_span_with_condition
  invert_search-IsInverse [] s = inl refl
  invert_search-IsInverse (rs ∷ rest) s =
      let s₁ = (check_resource rs.resource s).1 in
      ground (
        arith,
        invert_search-IsInverse rest
            (invert_has_instrumentation_library_span_with_condition check_span rs.scope_spans s₁).1,
      )

module _ (lru : LruCache) where
  open lru use {Cache}

  -- A string filter with `invertMatch`.
  abbrev pub is_inverted : Filter Cache → Bool
  is_inverted (string_filter f) = f.invert_match
  is_inverted (numeric_filter n) = false

  -- The filters that are not.
  unfoldable pub drop_inverted : List (Filter Cache) → List (Filter Cache)
  drop_inverted [] = []
  drop_inverted (f ∷ fs) = let rest = drop_inverted fs in if is_inverted f then rest else f ∷ rest

  string_evaluate-IsInverse :
      (trace : TraceData) (f : StringAttributeFilter Cache)
      → f.invert_match ≡ true
      → IsInverse (string_evaluate lru trace f).0.0 × ((string_evaluate lru trace f).0.1 ≡ none)
  unfolding string_evaluate
  string_evaluate-IsInverse trace f h =
      rw (h, string_evaluate)
        (
          invert_search-IsInverse (invert_resource_matches lru f.key)
              (invert_span_matches lru f.key) trace.received_batches f.matcher,
          refl,
        )

  module _ (now : ℤ) (id : ℕ) (trace : TraceData) where
    filter_loop-inverted :
        (op : String) (flag : Bool) (f : Filter Cache) (fs : List (Filter Cache))
        → is_inverted f ≡ true
        → (filter_loop ⦃pf = filter_policy lru⦄ now id trace op flag (f ∷ fs)).0
          ≡ (filter_loop ⦃pf = filter_policy lru⦄ now id trace op flag fs).0
    unfolding filter_loop filter_evaluate
    filter_loop-inverted op flag (numeric_filter n) fs h = cc
    filter_loop-inverted op flag (string_filter f) fs h =
        ground (arith, string_evaluate-IsInverse trace f h)

    filter_loop-cons :
        (op : String) (flag : Bool) (f : Filter Cache) (fs gs : List (Filter Cache))
        → ((b : Bool)
            → (filter_loop ⦃pf = filter_policy lru⦄ now id trace op b fs).0
              ≡ (filter_loop ⦃pf = filter_policy lru⦄ now id trace op b gs).0)
        → (filter_loop ⦃pf = filter_policy lru⦄ now id trace op flag (f ∷ fs)).0
          ≡ (filter_loop ⦃pf = filter_policy lru⦄ now id trace op flag (f ∷ gs)).0
    unfolding filter_loop
    filter_loop-cons op flag f fs gs h =
        ground (arith, h (is_sampled (filter_evaluate lru trace f).0.0 || flag))

    filter_loop-drop_inverted :
        (op : String) (flag : Bool) (fs : List (Filter Cache))
        → (filter_loop ⦃pf = filter_policy lru⦄ now id trace op flag fs).0
          ≡ (filter_loop ⦃pf = filter_policy lru⦄ now id trace op flag (drop_inverted fs)).0
    unfolding drop_inverted
    filter_loop-drop_inverted op flag [] = refl
    filter_loop-drop_inverted op flag (f ∷ fs) = elim (Bool-cases (is_inverted f)) [
      | inl inv ↦
          rw (inv, drop_inverted)
            (filter_loop-inverted op flag f fs inv ∙ filter_loop-drop_inverted op flag fs)
      | inr keep ↦
          rw (keep, drop_inverted)
            (filter_loop-cons op flag f fs (drop_inverted fs)
              (λ b. filter_loop-drop_inverted op b fs))
    ]

    -- Inverted string filters have no say: a policy decides as it would without them.
    pub default_evaluate-drop_inverted :
        {U : Type 0} ⦃pu : PolicyEvaluator U⦄ (de : DefaultEvaluator (Filter Cache) Sampler U)
        → (default_evaluate ⦃pf = filter_policy lru⦄ now id trace de).0
          ≡ (default_evaluate ⦃pf = filter_policy lru⦄ now id trace
              (record de { filters = drop_inverted de.filters })).0
    unfolding default_evaluate
    default_evaluate-drop_inverted de =
        ground (arith, filter_loop-drop_inverted de.filter_operator false de.filters)

    -- A policy with no filters but inverted ones has no result on any trace.
    pub default_evaluate_all_inverted :
        {U : Type 0} ⦃pu : PolicyEvaluator U⦄ (de : DefaultEvaluator (Filter Cache) Sampler U)
        → drop_inverted de.filters ≡ []
        → (default_evaluate ⦃pf = filter_policy lru⦄ now id trace de).0 ≡ (no_result, none)
    unfolding default_evaluate
    default_evaluate_all_inverted de h =
        let none_matched : (filter_loop ⦃pf = filter_policy lru⦄ now id trace de.filter_operator
              false []).0
            ≡ matched false =
          unfold filter_loop in refl in
        ground
          (arith, filter_loop-drop_inverted de.filter_operator false de.filters, none_matched, h)
