-- ===== src/Sampling/Scan.antt =====
-- The searches of processor/signoztailsampler/internal/sampling/util.go. The callbacks may keep
-- state (a running maximum, a cache), so they are passed on a state that they change.
pub mod Laws
pub mod Flat
use k_o11y_otel_gateway.Prelude.{Bool, true, false, List, [], ◌∷◌, if◌then◌else◌}
use k_o11y_otel_gateway.Sampling.Trace.{
  Attributes, Span, Traces, Decision, sampled, not_sampled, invert_sampled, invert_not_sampled,
}

module _ {S : Type 0} where
  -- The spans of one scope.
  unfoldable pub scope_has : (Span → S → Bool × S) → List Span → S → Bool × S
  scope_has check [] s = (false, s)
  scope_has check (span ∷ spans) s =
      let (hit, s') = check span s in if hit then (true, s') else scope_has check spans s'

  unfoldable pub has_instrumentation_library_span_with_condition :
      (Span → S → Bool × S) → List (List Span) → S → Bool × S
  has_instrumentation_library_span_with_condition check [] s = (false, s)
  has_instrumentation_library_span_with_condition check (ils ∷ ilss) s =
      let (hit, s') = scope_has check ils s in
      if hit then (true, s') else has_instrumentation_library_span_with_condition check ilss s'

  -- The inverted search stops at the first callback that returns false.
  unfoldable pub scope_all : (Span → S → Bool × S) → List Span → S → Bool × S
  scope_all check [] s = (true, s)
  scope_all check (span ∷ spans) s =
      let (hit, s') = check span s in if hit then scope_all check spans s' else (false, s')

  unfoldable pub invert_has_instrumentation_library_span_with_condition :
      (Span → S → Bool × S) → List (List Span) → S → Bool × S
  invert_has_instrumentation_library_span_with_condition check [] s = (true, s)
  invert_has_instrumentation_library_span_with_condition check (ils ∷ ilss) s =
      let (hit, s') = scope_all check ils s in
      if hit
      then invert_has_instrumentation_library_span_with_condition check ilss s'
      else (false, s')

  unfoldable pub has_span_with_condition : (Span → S → Bool × S) → Traces → S → Decision × S
  has_span_with_condition check [] s = (not_sampled, s)
  has_span_with_condition check (rs ∷ rest) s =
      let (hit, s') = has_instrumentation_library_span_with_condition check rs.scope_spans s in
      if hit then (sampled, s') else has_span_with_condition check rest s'

  module _ (check_resource : Attributes → S → Bool × S) (check_span : Span → S → Bool × S) where
    unfoldable pub has_resource_or_span_with_condition : Traces → S → Decision × S
    has_resource_or_span_with_condition [] s = (not_sampled, s)
    has_resource_or_span_with_condition (rs ∷ rest) s =
        let (in_resource, s₁) = check_resource rs.resource s in
        let (in_span, s₂) =
          has_instrumentation_library_span_with_condition check_span rs.scope_spans s₁ in
        if in_resource
        then (sampled, s₁)
        else if in_span
        then (sampled, s₂)
        else has_resource_or_span_with_condition rest s₂

    unfoldable pub invert_has_resource_or_span_with_condition : Traces → S → Decision × S
    invert_has_resource_or_span_with_condition [] s = (invert_sampled, s)
    invert_has_resource_or_span_with_condition (rs ∷ rest) s =
        let (resource_ok, s₁) = check_resource rs.resource s in
        let (spans_ok, s₂) =
          invert_has_instrumentation_library_span_with_condition check_span rs.scope_spans s₁ in
        if resource_ok
        then if spans_ok
          then invert_has_resource_or_span_with_condition rest s₂
          else (invert_not_sampled, s₂)
        else (invert_not_sampled, s₁)
