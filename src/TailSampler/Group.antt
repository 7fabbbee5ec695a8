-- ===== src/TailSampler/Group.antt =====
-- Grouping spans by trace, processor/signoztailsampler/processor.go (groupSpansByTraceKey,
-- appendToTraces).
pub mod Laws
use k_o11y_otel_gateway.Prelude.{ℕ, List, [], ◌∷◌, ◌++◌, ◌==◌, if◌then◌else◌}
use k_o11y_otel_gateway.Sampling.Trace.{Span, ResourceSpans, Traces}

-- Grouping the spans of a resource by trace id, each group in the order of arrival.
unfoldable pub add_span : Span → List (ℕ × List Span) → List (ℕ × List Span)
add_span span [] = (span.trace_id, span ∷ []) ∷ []
add_span span ((id, spans) ∷ groups) =
    if id == span.trace_id
    then (id, spans ++ span ∷ []) ∷ groups
    else (id, spans) ∷ add_span span groups

unfoldable pub add_spans : List Span → List (ℕ × List Span) → List (ℕ × List Span)
add_spans [] groups = groups
add_spans (span ∷ spans) groups = add_spans spans (add_span span groups)

unfoldable pub group_scopes : List (List Span) → List (ℕ × List Span) → List (ℕ × List Span)
group_scopes [] groups = groups
group_scopes (ils ∷ ilss) groups = group_scopes ilss (add_spans ils groups)

unfoldable pub group_spans_by_trace_key : ResourceSpans → List (ℕ × List Span)
group_spans_by_trace_key rs = group_scopes rs.scope_spans []

unfoldable pub append_to_traces : Traces → ResourceSpans → List Span → Traces
append_to_traces dest rss spans =
    dest ++ record { resource = rss.resource; scope_spans = spans ∷ [] } ∷ []
