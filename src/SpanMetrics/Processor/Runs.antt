-- ===== src/SpanMetrics/Processor/Runs.antt =====
-- Runs of the span metrics processor: traces come in and metrics are built, in any order,
-- processor/signozspanmetricsprocessor/processor.go.
use k_o11y_otel_gateway.Prelude.{
  ℕ, String, Option, none, some, List, [], ◌∷◌, map, ◌≡◌, refl, sym, subst, ap, arith, Bool-cases,
  Option-cases, inl, inr, str_eq, if◌then◌else◌,
}
use k_o11y_otel_gateway.Prelude.Results.{Result, ok}
use k_o11y_otel_gateway.SpanMetrics.Span.{Attributes, lookup, Span}
use k_o11y_otel_gateway.SpanMetrics.Histogram.{Floats, HistogramData, drop_exemplars}
use k_o11y_otel_gateway.SpanMetrics.Histogram.Laws.{IsCounted, drop_exemplars-IsCounted}
use k_o11y_otel_gateway.SpanMetrics.Cache.{SimpleLru}
use k_o11y_otel_gateway.SpanMetrics.Cache.Laws.{IsLru}
use k_o11y_otel_gateway.SpanMetrics.Store.{
  Store, Point, collect_metrics, reset_exemplars, reset_accumulated, forget_evicted,
}
use k_o11y_otel_gateway.SpanMetrics.Store.Laws.{
  collect_metrics-IsSound, forget_evicted-IsSound, reset_accumulated-IsSound,
  reset_exemplars-IsSound,
}
use k_o11y_otel_gateway.SpanMetrics.Processor.{
  Config, Processor, Library, ResourceSpans, and_then, aggregate_spans, aggregate_scopes,
  aggregate_metrics, consume_traces, marked,
}
use k_o11y_otel_gateway.SpanMetrics.Processor.Laws.{
  IsSound, IsSoundStore, IsDone, and_then-IsDone, unmoved-IsDone,
  aggregate_metrics_for_span-IsSound,
}
use k_o11y_otel_gateway.SpanMetrics.Processor.Export.{
  Metrics, reset_exemplar_data, reset_accumulated_metrics, forget_all_evicted, after_collection,
  build_metrics, export_metrics,
}

-- Traces that come in at a time, or a tick.
pub data Event : Type 0 where
  traces_at : ℕ → List ResourceSpans → Event
  tick : Event

module _ (floats : Floats) {X : Type 0} (lib : Library floats.Float X)
    (simple : SimpleLru String Attributes) (peek : simple.Lru → String → Option Attributes)
    (laws : IsLru str_eq simple peek) (bounds : List floats.Float) (cfg : Config) where
  open floats use {Float}

  abbrev Sound : Processor simple.Lru Float X → Type 0
  Sound = IsSound floats lib simple peek laws bounds cfg

  aggregate_spans-IsSound :
      (now : ℕ) (service : String) (resource_attrs : Attributes) (spans : List Span)
      (p : Processor simple.Lru Float X)
      → Sound p
      → IsDone floats lib simple peek laws bounds cfg
          (aggregate_spans floats lib simple bounds cfg now service resource_attrs spans p)
  unfolding aggregate_spans
  aggregate_spans-IsSound now service attrs [] p s =
      unmoved-IsDone floats lib simple peek laws bounds cfg p s
  aggregate_spans-IsSound now service attrs (span ∷ spans) p s =
      and_then-IsDone floats lib simple peek laws bounds cfg _ _
        (aggregate_metrics_for_span-IsSound floats lib simple peek laws bounds cfg now service attrs
          span p s)
        (λ q t. aggregate_spans-IsSound now service attrs spans q t)

  aggregate_scopes-IsSound :
      (now : ℕ) (service : String) (resource_attrs : Attributes) (scopes : List (List Span))
      (p : Processor simple.Lru Float X)
      → Sound p
      → IsDone floats lib simple peek laws bounds cfg
          (aggregate_scopes floats lib simple bounds cfg now service resource_attrs scopes p)
  unfolding aggregate_scopes
  aggregate_scopes-IsSound now service attrs [] p s =
      unmoved-IsDone floats lib simple peek laws bounds cfg p s
  aggregate_scopes-IsSound now service attrs (spans ∷ scopes) p s =
      and_then-IsDone floats lib simple peek laws bounds cfg _ _
        (aggregate_spans-IsSound now service attrs spans p s)
        (λ q t. aggregate_scopes-IsSound now service attrs scopes q t)

  -- The instance id in the resource of a service; a resource without one is left as it is.
  abbrev pub marked_all : List ResourceSpans → List ResourceSpans
  marked_all [] = []
  marked_all (r ∷ rs) = elim (lookup "service.name" r.resource) [
    | none ↦ r ∷ marked_all rs
    | some v ↦ record r { resource = marked floats lib simple bounds cfg r } ∷ marked_all rs
  ]

  pub consume_traces-IsSound :
      (now : ℕ) (traces : List ResourceSpans) (p : Processor simple.Lru Float X)
      → Sound p
      → (q : Processor simple.Lru Float X) × (consume_traces floats lib simple bounds cfg now traces
            p
          ≡ some (q, marked_all traces))
        × Sound q
  unfolding consume_traces aggregate_metrics
  consume_traces-IsSound now [] p s = (p, refl, s)
  consume_traces-IsSound now (r ∷ rs) p s = elim (Option-cases (lookup "service.name" r.resource)) [
    | inl unnamed ↦
        let (q, done, t) = consume_traces-IsSound now rs p s in
        (q, ground (arith, unnamed, done), t)
    | inr (service, named) ↦
        let (q, done, t) =
          aggregate_scopes-IsSound now service.str (marked floats lib simple bounds cfg r) r.scopes
            p s in
        let (q', done', t') = consume_traces-IsSound now rs q t in
        (q', ground (arith, named, done, done'), t')
  ]

  reset_exemplar_data-IsSound :
      (p : Processor simple.Lru Float X) → Sound p → Sound (reset_exemplar_data floats simple p)
  unfolding reset_exemplar_data
  reset_exemplar_data-IsSound p s =
      let kept : (q : Store simple.Lru (HistogramData Float))
          → IsSoundStore floats lib simple peek laws bounds cfg q
          → IsSoundStore floats lib simple peek laws bounds cfg
              (reset_exemplars simple (drop_exemplars floats) q) =
        λ q t.
          reset_exemplars-IsSound (IsCounted floats bounds) simple peek (drop_exemplars floats)
            (drop_exemplars-IsCounted floats bounds) q t in
      record {
        services = s.services;
        latency = kept p.latency s.latency;
        exp = s.exp;
        call = kept p.call s.call;
        db_call = kept p.db_call s.db_call;
        external_call = kept p.external_call s.external_call;
      }

  reset_accumulated_metrics-IsSound :
      (p : Processor simple.Lru Float X)
      → Sound p
      → Sound (reset_accumulated_metrics floats simple p)
  unfolding reset_accumulated_metrics
  reset_accumulated_metrics-IsSound p s =
      let emptied : (q : Store simple.Lru (HistogramData Float))
          → IsSoundStore floats lib simple peek laws bounds cfg (reset_accumulated simple q) =
        λ q. reset_accumulated-IsSound (IsCounted floats bounds) simple peek q in
      record {
        services = s.services;
        latency = emptied p.latency;
        exp = reset_accumulated-IsSound (λ (x : X). Unit) simple peek p.exp;
        call = emptied p.call;
        db_call = emptied p.db_call;
        external_call = emptied p.external_call;
      }

  forget_all_evicted-IsSound :
      (p : Processor simple.Lru Float X) → Sound p → Sound (forget_all_evicted floats simple p)
  unfolding forget_all_evicted
  forget_all_evicted-IsSound p s =
      let kept : (q : Store simple.Lru (HistogramData Float))
          → IsSoundStore floats lib simple peek laws bounds cfg q
          → IsSoundStore floats lib simple peek laws bounds cfg (forget_evicted simple q) =
        λ q t. forget_evicted-IsSound (IsCounted floats bounds) simple peek laws q t in
      record {
        services = s.services;
        latency = kept p.latency s.latency;
        exp = forget_evicted-IsSound (λ (x : X). Unit) simple peek laws p.exp s.exp;
        call = kept p.call s.call;
        db_call = kept p.db_call s.db_call;
        external_call = kept p.external_call s.external_call;
      }

  after_collection-IsSound :
      (p : Processor simple.Lru Float X) → Sound p → Sound (after_collection floats simple cfg p)
  after_collection-IsSound p s =
      let kept : Processor simple.Lru Float X = forget_all_evicted floats simple p in
      let t : Sound kept = forget_all_evicted-IsSound p s in
      elim (Bool-cases cfg.is_delta) [
        | inl delta ↦
            subst
              (λ b. Sound (
                reset_exemplar_data floats simple
                  (if b then reset_accumulated_metrics floats simple kept else kept)))
              (sym delta) (reset_exemplar_data-IsSound _ (reset_accumulated_metrics-IsSound kept t))
        | inr cumulative ↦
            subst
              (λ b. Sound (
                reset_exemplar_data floats simple
                  (if b then reset_accumulated_metrics floats simple kept else kept)))
              (sym cumulative) (reset_exemplar_data-IsSound kept t)
      ]

  export_metrics-IsSound :
      (p : Processor simple.Lru Float X)
      → Sound p
      → (m : Metrics Float X) × ((export_metrics floats simple cfg p).0 ≡ ok m)
        × Sound (export_metrics floats simple cfg p).1
  unfolding export_metrics build_metrics
  export_metrics-IsSound p s =
      let collects : (q : Store simple.Lru (HistogramData Float))
          → IsSoundStore floats lib simple peek laws bounds cfg q
          → (ps : List (Point (HistogramData Float))) × ((collect_metrics simple q).0 ≡ ok ps)
            × IsSoundStore floats lib simple peek laws bounds cfg (collect_metrics simple q).1 =
        λ q t. collect_metrics-IsSound (IsCounted floats bounds) simple peek laws q t in
      let (calls, e1, s1) = collects p.call s.call in
      let (latencies, e2, s2) = collects p.latency s.latency in
      let (externals, e3, s3) = collects p.external_call s.external_call in
      let (dbs, e4, s4) = collects p.db_call s.db_call in
      let (exps, e5, s5) = collect_metrics-IsSound (λ (x : X). Unit) simple peek laws p.exp s.exp in
      let q : Processor simple.Lru Float X = record {
        services = p.services;
        latency = (collect_metrics simple p.latency).1;
        exp = (collect_metrics simple p.exp).1;
        call = (collect_metrics simple p.call).1;
        db_call = (collect_metrics simple p.db_call).1;
        external_call = (collect_metrics simple p.external_call).1;
      } in
      let m : Metrics Float X = record {
        calls = calls;
        latencies = latencies;
        external_calls = externals;
        db_calls = dbs;
        exp_latencies = exps;
      } in
      let built : build_metrics floats simple cfg p ≡ (ok m, after_collection floats simple cfg q) =
        ground (arith, e1, e2, e3, e4, e5) in
      (
        m,
        ap (λ x. x.0) built,
        subst (λ x. Sound (reset_exemplar_data floats simple x.1)) (sym built)
            (reset_exemplar_data-IsSound _ (
              after_collection-IsSound q (record {
                services = s.services;
                latency = s2;
                exp = s5;
                call = s1;
                db_call = s4;
                external_call = s3;
              }))),
      )

  -- The state afterwards, and what each tick built; `none` is a panic.
  unfoldable pub serve :
      List Event
      → Processor simple.Lru Float X
      → Option (Processor simple.Lru Float X × List (Result (Metrics Float X)))
  serve [] p = some (p, [])
  serve (traces_at now traces ∷ events) p =
      and_then (consume_traces floats lib simple bounds cfg now traces p)
        (λ (q, passed). serve events q)
  serve (tick ∷ events) p =
      let (m, q) = export_metrics floats simple cfg p in
      and_then (serve events q) (λ (q', ms). some (q', m ∷ ms))

  -- Whatever traces come in and ticks pass, from a sound state, nothing panics, every tick builds
  -- its metrics without an error, and the state stays sound: the services and the operations of each are
  -- within one of their limits, but for the overflow name, every histogram has its dimensions, and its
  -- buckets add up to its count.
  pub serve-IsSound :
      (events : List Event) (p : Processor simple.Lru Float X)
      → Sound p
      → (q : Processor simple.Lru Float X) × (ms : List (Metrics Float X)) × (serve events p
          ≡ some (q, map (λ m. ok m) ms))
        × Sound q
  unfolding serve
  serve-IsSound [] p s = (p, [], refl, s)
  serve-IsSound (traces_at now traces ∷ events) p s =
      let (q, done, t) = consume_traces-IsSound now traces p s in
      let (q', ms, done', t') = serve-IsSound events q t in
      (q', ms, ground (arith, done, done'), t')
  serve-IsSound (tick ∷ events) p s =
      let (m, built, t) = export_metrics-IsSound p s in
      let (q', ms, done', t') = serve-IsSound events (export_metrics floats simple cfg p).1 t in
      (q', m ∷ ms, ground (arith, built, done'), t')
