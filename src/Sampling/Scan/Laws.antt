-- ===== src/Sampling/Scan/Laws.antt =====
-- The searches of Sampling/Scan.antt against the Boolean quantifiers over all spans. A callback
-- with state is covered if an invariant of its state makes it compute a plain test.
use k_o11y_otel_gateway.Prelude.{
  Bool, List, [], ◌∷◌, ◌≡◌, refl, ◌&&◌, ◌||◌, any, all, arith, if◌then◌else◌,
}
use k_o11y_otel_gateway.Sampling.Trace.{
  Attributes, Span, Traces, sampled, not_sampled, invert_sampled, invert_not_sampled,
}
use k_o11y_otel_gateway.Sampling.Scan.{
  scope_has, scope_all, has_instrumentation_library_span_with_condition,
  invert_has_instrumentation_library_span_with_condition, has_span_with_condition,
  has_resource_or_span_with_condition, invert_has_resource_or_span_with_condition,
}

abbrev pub some_span : (Span → Bool) → Traces → Bool
some_span p = any (λ rs. any (any p) rs.scope_spans)

abbrev pub some_resource_or_span : (Attributes → Bool) → (Span → Bool) → Traces → Bool
some_resource_or_span q p = any (λ rs. q rs.resource || any (any p) rs.scope_spans)

abbrev pub every_resource_and_span : (Attributes → Bool) → (Span → Bool) → Traces → Bool
every_resource_and_span q p = all (λ rs. q rs.resource && all (all p) rs.scope_spans)

-- With the invariant `Inv` of its state, `check` computes `p` and keeps the invariant.
pub record Computes {S X : Type 0} (Inv : S → Type 0) (p : X → Bool) (check : X → S → Bool × S)
    : Type 0 where
  pub step : (x : X) (s : S) → Inv s → ((check x s).0 ≡ p x) × Inv (check x s).1

module _ {S : Type 0} (Inv : S → Type 0) (p : Span → Bool) (check : Span → S → Bool × S)
    (c : Computes Inv p check) where
  scope_has-any :
      (xs : List Span) (s : S)
      → Inv s
      → ((scope_has check xs s).0 ≡ any p xs) × Inv (scope_has check xs s).1
  unfolding scope_has
  scope_has-any [] s h = (refl, h)
  scope_has-any (x ∷ xs) s h = ground (arith, c.step x s h, scope_has-any xs (check x s).1)

  library_has-any :
      (xss : List (List Span)) (s : S)
      → Inv s
      → ((has_instrumentation_library_span_with_condition check xss s).0 ≡ any (any p) xss)
        × Inv (has_instrumentation_library_span_with_condition check xss s).1
  unfolding has_instrumentation_library_span_with_condition
  library_has-any [] s h = (refl, h)
  library_has-any (xs ∷ xss) s h =
      ground (arith, scope_has-any xs s h, library_has-any xss (scope_has check xs s).1)

  pub has_span-some_span :
      (td : Traces) (s : S)
      → Inv s
      → ((has_span_with_condition check td s).0 ≡ (if some_span p td then sampled else not_sampled))
        × Inv (has_span_with_condition check td s).1
  unfolding has_span_with_condition
  has_span-some_span [] s h = (refl, h)
  has_span-some_span (rs ∷ rest) s h = ground (
    arith,
    library_has-any rs.scope_spans s h,
    has_span-some_span rest
        (has_instrumentation_library_span_with_condition check rs.scope_spans s).1,
  )

  scope_all-all :
      (xs : List Span) (s : S)
      → Inv s
      → ((scope_all check xs s).0 ≡ all p xs) × Inv (scope_all check xs s).1
  unfolding scope_all
  scope_all-all [] s h = (refl, h)
  scope_all-all (x ∷ xs) s h = ground (arith, c.step x s h, scope_all-all xs (check x s).1)

  library_all-all :
      (xss : List (List Span)) (s : S)
      → Inv s
      → ((invert_has_instrumentation_library_span_with_condition check xss s).0 ≡ all (all p) xss)
        × Inv (invert_has_instrumentation_library_span_with_condition check xss s).1
  unfolding invert_has_instrumentation_library_span_with_condition
  library_all-all [] s h = (refl, h)
  library_all-all (xs ∷ xss) s h =
      ground (arith, scope_all-all xs s h, library_all-all xss (scope_all check xs s).1)

  module _ (q : Attributes → Bool) (check_resource : Attributes → S → Bool × S)
      (cq : Computes Inv q check_resource) where
    pub has_resource_or_span-some :
        (td : Traces) (s : S)
        → Inv s
        → ((has_resource_or_span_with_condition check_resource check td s).0
            ≡ (if some_resource_or_span q p td then sampled else not_sampled))
          × Inv (has_resource_or_span_with_condition check_resource check td s).1
    unfolding has_resource_or_span_with_condition
    has_resource_or_span-some [] s h = (refl, h)
    has_resource_or_span-some (rs ∷ rest) s h =
        let s₁ = (check_resource rs.resource s).1 in
        ground (
          arith,
          cq.step rs.resource s h,
          library_has-any rs.scope_spans s₁,
          has_resource_or_span-some rest
              (has_instrumentation_library_span_with_condition check rs.scope_spans s₁).1,
        )

    pub invert_has_resource_or_span-every :
        (td : Traces) (s : S)
        → Inv s
        → ((invert_has_resource_or_span_with_condition check_resource check td s).0
            ≡ (if every_resource_and_span q p td then invert_sampled else invert_not_sampled))
          × Inv (invert_has_resource_or_span_with_condition check_resource check td s).1
    unfolding invert_has_resource_or_span_with_condition
    invert_has_resource_or_span-every [] s h = (refl, h)
    invert_has_resource_or_span-every (rs ∷ rest) s h =
        let s₁ = (check_resource rs.resource s).1 in
        ground (
          arith,
          cq.step rs.resource s h,
          library_all-all rs.scope_spans s₁,
          invert_has_resource_or_span-every rest
              (invert_has_instrumentation_library_span_with_condition check rs.scope_spans s₁).1,
        )
