-- ===== src/TailSampler/Group/Laws.antt =====
-- What the grouping of spans by trace keeps, groupSpansByTraceKey of
-- processor/signoztailsampler/processor.go.
use mathlib.Core.List.{append_assoc, append-nil}
use k_o11y_otel_gateway.Prelude.{
  ℕ, true, false, List, [], ◌∷◌, ◌++◌, ◌==◌, if◌then◌else◌, ◌≡◌, refl, sym, ap, ◌∙◌, arith,
  Bool-cases, inl, inr,
}
use k_o11y_otel_gateway.Sampling.Trace.{Span, ResourceSpans}
use k_o11y_otel_gateway.TailSampler.Group.{
  add_span, add_spans, group_scopes, group_spans_by_trace_key,
}

-- The groups of a trace.
unfoldable pub groups_of : ℕ → List (ℕ × List Span) → List (List Span)
groups_of id [] = []
groups_of id ((j, spans) ∷ groups) =
    let rest = groups_of id groups in if j == id then spans ∷ rest else rest

-- The spans of a trace, in their order.
unfoldable pub spans_of : ℕ → List Span → List Span
spans_of id [] = []
spans_of id (span ∷ spans) =
    let rest = spans_of id spans in if span.trace_id == id then span ∷ rest else rest

abbrev pub joined : List (List Span) → List Span
joined [] = []
joined (ils ∷ ilss) = ils ++ joined ilss

-- One group with the spans, and none when there are no spans.
abbrev pub at_most_one : List Span → List (List Span)
at_most_one [] = []
at_most_one (span ∷ spans) = (span ∷ spans) ∷ []

groups_of-add_span_other :
    (id : ℕ) (span : Span) (groups : List (ℕ × List Span))
    → (span.trace_id == id) ≡ false
    → groups_of id (add_span span groups) ≡ groups_of id groups
unfolding groups_of add_span
groups_of-add_span_other id span [] n = ground (arith, n)
groups_of-add_span_other id span ((j, spans) ∷ groups) n =
    ground (arith, n, groups_of-add_span_other id span groups n)

groups_of-add_span_same :
    (id : ℕ) (span : Span) (xs : List Span) (groups : List (ℕ × List Span))
    → (span.trace_id == id) ≡ true
    → groups_of id groups ≡ at_most_one xs
    → groups_of id (add_span span groups) ≡ (xs ++ span ∷ []) ∷ []
unfolding groups_of add_span
groups_of-add_span_same id span [] [] y h = ground (arith, y)
groups_of-add_span_same id span (x ∷ xs) [] y h = absurd (ground (arith, h))
groups_of-add_span_same id span [] ((j, spans) ∷ groups) y h =
    ground (arith, y, h, groups_of-add_span_same id span [] groups y)
groups_of-add_span_same id span (x ∷ xs) ((j, spans) ∷ groups) y h =
    ground (arith, y, h, groups_of-add_span_same id span (x ∷ xs) groups y)

at_most_one-snoc :
    (xs : List Span) (span : Span) → at_most_one (xs ++ span ∷ []) ≡ (xs ++ span ∷ []) ∷ []
at_most_one-snoc [] span = refl
at_most_one-snoc (x ∷ xs) span = refl

groups_of-add_spans :
    (id : ℕ) (spans xs : List Span) (groups : List (ℕ × List Span))
    → groups_of id groups ≡ at_most_one xs
    → groups_of id (add_spans spans groups) ≡ at_most_one (xs ++ spans_of id spans)
unfolding add_spans spans_of
groups_of-add_spans id [] xs groups h = h ∙ ap at_most_one (sym (append-nil xs))
groups_of-add_spans id (span ∷ spans) xs groups h = elim (Bool-cases (span.trace_id == id)) [
  | inl y ↦
      let one : groups_of id (add_span span groups) ≡ at_most_one (xs ++ span ∷ []) =
        groups_of-add_span_same id span xs groups y h ∙ sym (at_most_one-snoc xs span) in
      ground (
        arith,
        y,
        groups_of-add_spans id spans (xs ++ span ∷ []) (add_span span groups) one,
        append_assoc xs (span ∷ []) (spans_of id spans),
      )
  | inr n ↦
      let same : groups_of id (add_span span groups) ≡ at_most_one xs =
        groups_of-add_span_other id span groups n ∙ h in
      ground (arith, n, groups_of-add_spans id spans xs (add_span span groups) same)
]

spans_of-append :
    (id : ℕ) (xs ys : List Span) → spans_of id (xs ++ ys) ≡ spans_of id xs ++ spans_of id ys
unfolding spans_of
spans_of-append id [] ys = refl
spans_of-append id (x ∷ xs) ys = ground (arith, spans_of-append id xs ys)

groups_of-group_scopes :
    (id : ℕ) (ilss : List (List Span)) (xs : List Span) (groups : List (ℕ × List Span))
    → groups_of id groups ≡ at_most_one xs
    → groups_of id (group_scopes ilss groups) ≡ at_most_one (xs ++ spans_of id (joined ilss))
unfolding group_scopes spans_of
groups_of-group_scopes id [] xs groups h = h ∙ ap at_most_one (sym (append-nil xs))
groups_of-group_scopes id (ils ∷ ilss) xs groups h = ground (
  arith,
  groups_of-group_scopes id ilss (xs ++ spans_of id ils) (add_spans ils groups)
      (groups_of-add_spans id ils xs groups h),
  spans_of-append id ils (joined ilss),
  append_assoc xs (spans_of id ils) (spans_of id (joined ilss)),
)

-- Each trace of a resource has one group, which holds exactly its spans, over all scopes and in their
-- order, and a trace without a span in the resource has none.
pub group_spans_by_trace_key-spans_of :
    (id : ℕ) (rs : ResourceSpans)
    → groups_of id (group_spans_by_trace_key rs) ≡ at_most_one (spans_of id (joined rs.scope_spans))
unfolding group_spans_by_trace_key groups_of
group_spans_by_trace_key-spans_of id rs = groups_of-group_scopes id rs.scope_spans [] [] refl
