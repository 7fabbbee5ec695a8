-- ===== src/Sampling/Scan/Flat.antt =====
-- A search through the scopes of all resources is a search through one list of spans.
use k_o11y_otel_gateway.Prelude.{Bool, true, List, [], ◌∷◌, ◌++◌, ◌≡◌, refl, arith, if◌then◌else◌}
use k_o11y_otel_gateway.Sampling.Trace.{Span, Traces, sampled, not_sampled}
use k_o11y_otel_gateway.Sampling.Scan.{
  scope_has, has_instrumentation_library_span_with_condition, has_span_with_condition,
}

abbrev pub spans_of : List (List Span) → List Span
spans_of [] = []
spans_of (xs ∷ xss) = xs ++ spans_of xss

abbrev pub all_spans : Traces → List Span
all_spans [] = []
all_spans (rs ∷ td) = spans_of rs.scope_spans ++ all_spans td

module _ {S : Type 0} (check : Span → S → Bool × S) where
  scope_has-append :
      (xs ys : List Span) (s : S)
      → scope_has check (xs ++ ys) s ≡ (
          let (hit, s') = scope_has check xs s in if hit then (true, s') else scope_has check ys s')
  unfolding scope_has
  scope_has-append [] ys s = refl
  scope_has-append (x ∷ xs) ys s = ground (arith, scope_has-append xs ys (check x s).1)

  library_has-flat :
      (xss : List (List Span)) (s : S)
      → has_instrumentation_library_span_with_condition check xss s
        ≡ scope_has check (spans_of xss) s
  unfolding has_instrumentation_library_span_with_condition scope_has
  library_has-flat [] s = refl
  library_has-flat (xs ∷ xss) s =
      ground
        (arith, scope_has-append xs (spans_of xss) s, library_has-flat xss (scope_has check xs s).1)

  pub has_span-flat :
      (td : Traces) (s : S)
      → has_span_with_condition check td s ≡ (
          let (hit, s') = scope_has check (all_spans td) s in
          (if hit then sampled else not_sampled, s'))
  unfolding has_span_with_condition scope_has
  has_span-flat [] s = refl
  has_span-flat (rs ∷ td) s = ground (
    arith,
    library_has-flat rs.scope_spans s,
    scope_has-append (spans_of rs.scope_spans) (all_spans td) s,
    has_span-flat td (scope_has check (spans_of rs.scope_spans) s).1,
  )
