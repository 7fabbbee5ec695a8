-- ===== src/SpanMetrics/Processor/Calls.antt =====
-- The calls that a delivery of traces counts, the metric signoz_calls_total of
-- processor/signozspanmetricsprocessor/processor.go.
use k_o11y_otel_gateway.Prelude.{
  ℕ, ◌+◌, ◌%◌, ◌^◌, String, none, some, List, [], ◌∷◌, ◌≡◌, arith, Option-cases, inl, inr,
}
use k_o11y_otel_gateway.SpanMetrics.Span.{Attributes, lookup, Span}
use k_o11y_otel_gateway.SpanMetrics.Histogram.{Floats}
use k_o11y_otel_gateway.SpanMetrics.Cache.{SimpleLru}
use k_o11y_otel_gateway.SpanMetrics.Processor.{
  Config, Processor, Library, ResourceSpans, aggregate_spans, aggregate_scopes, aggregate_metrics,
  consume_traces, marked,
}
use k_o11y_otel_gateway.SpanMetrics.Processor.Counts.{
  calls, Counts, and_then-Counts, unmoved-Counts, span_calls, aggregate_metrics_for_span-Counts,
}

module _ (floats : Floats) {X : Type 0} (lib : Library floats.Float X)
    (simple : SimpleLru String Attributes) (bounds : List floats.Float) (cfg : Config) where
  open floats use {Float}

  unfoldable pub spans_calls : ℕ → String → Attributes → List Span → ℕ
  spans_calls now service attrs [] = 0
  spans_calls now service attrs (span ∷ spans) =
      span_calls floats lib simple bounds cfg now service attrs span
      + spans_calls now service attrs spans

  unfoldable pub scopes_calls : ℕ → String → Attributes → List (List Span) → ℕ
  scopes_calls now service attrs [] = 0
  scopes_calls now service attrs (spans ∷ scopes) =
      spans_calls now service attrs spans + scopes_calls now service attrs scopes

  aggregate_spans-Counts :
      (now : ℕ) (service : String) (attrs : Attributes) (spans : List Span)
      (p : Processor simple.Lru Float X)
      → Counts floats lib simple bounds cfg
          (spans_calls now service attrs spans)
          p
          (aggregate_spans floats lib simple bounds cfg now service attrs spans p)
  unfolding aggregate_spans spans_calls
  aggregate_spans-Counts now service attrs [] p = unmoved-Counts floats lib simple bounds cfg p
  aggregate_spans-Counts now service attrs (span ∷ spans) p =
      and_then-Counts floats lib simple bounds cfg
        (span_calls floats lib simple bounds cfg now service attrs span)
        (spans_calls now service attrs spans) p _ _
        (aggregate_metrics_for_span-Counts floats lib simple bounds cfg now service attrs span p)
        (λ r. aggregate_spans-Counts now service attrs spans r)

  aggregate_scopes-Counts :
      (now : ℕ) (service : String) (attrs : Attributes) (scopes : List (List Span))
      (p : Processor simple.Lru Float X)
      → Counts floats lib simple bounds cfg
          (scopes_calls now service attrs scopes)
          p
          (aggregate_scopes floats lib simple bounds cfg now service attrs scopes p)
  unfolding aggregate_scopes scopes_calls
  aggregate_scopes-Counts now service attrs [] p = unmoved-Counts floats lib simple bounds cfg p
  aggregate_scopes-Counts now service attrs (spans ∷ scopes) p =
      and_then-Counts floats lib simple bounds cfg (spans_calls now service attrs spans)
        (scopes_calls now service attrs scopes) p _ _
        (aggregate_spans-Counts now service attrs spans p)
        (λ r. aggregate_scopes-Counts now service attrs scopes r)

  -- The calls of the spans of every resource that names a service.
  unfoldable pub traces_calls : ℕ → List ResourceSpans → ℕ
  traces_calls now [] = 0
  traces_calls now (r ∷ rs) =
      let rest = traces_calls now rs in
      elim (lookup "service.name" r.resource) [
        | none ↦ rest
        | some service ↦
            scopes_calls now service.str (marked floats lib simple bounds cfg r) r.scopes + rest
      ]

  pub calls-consume_traces :
      (now : ℕ) (traces passed : List ResourceSpans) (p q : Processor simple.Lru Float X)
      → consume_traces floats lib simple bounds cfg now traces p ≡ some (q, passed)
      → calls floats q.call.histograms % 2 ^ 64
        ≡ (calls floats p.call.histograms + traces_calls now traces) % 2 ^ 64
  unfolding consume_traces aggregate_metrics traces_calls
  calls-consume_traces now [] passed p q e = ground (arith, e)
  calls-consume_traces now (r ∷ rs) passed p q e =
      elim (Option-cases (lookup "service.name" r.resource)) [
        | inl unnamed ↦
            elim (Option-cases (aggregate_metrics floats lib simple bounds cfg now rs p)) [
              | inl panicked ↦ absurd (ground (arith, unnamed, panicked, e))
              | inr ((q', rest), done) ↦
                  ground (arith, unnamed, done, e, calls-consume_traces now rs rest p q' done)
            ]
        | inr (service, named) ↦
            let attrs : Attributes = marked floats lib simple bounds cfg r in
            elim (Option-cases
              (aggregate_scopes floats lib simple bounds cfg now service.str attrs r.scopes p)) [
                | inl panicked ↦ absurd (ground (arith, named, panicked, e))
                | inr (p', counted) ↦
                    elim (Option-cases (aggregate_metrics floats lib simple bounds cfg now rs p')) [
                      | inl panicked ↦ absurd (ground (arith, named, counted, panicked, e))
                      | inr ((q', rest), done) ↦ ground (
                        arith,
                        named,
                        counted,
                        done,
                        e,
                        aggregate_scopes-Counts now service.str attrs r.scopes p p' counted,
                        calls-consume_traces now rs rest p' q' done,
                      )
                    ]
              ]
      ]
