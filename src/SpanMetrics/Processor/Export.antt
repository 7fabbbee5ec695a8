-- ===== src/SpanMetrics/Processor/Export.antt =====
-- The metrics that the span metrics processor builds at each tick, `buildMetrics` and `exportMetrics`,
-- processor/signozspanmetricsprocessor/processor.go.
use k_o11y_otel_gateway.Prelude.{String, List, if◌then◌else◌}
use k_o11y_otel_gateway.Prelude.Results.{Result, ok, err}
use k_o11y_otel_gateway.SpanMetrics.Span.{Attributes}
use k_o11y_otel_gateway.SpanMetrics.Histogram.{Floats, HistogramData, drop_exemplars}
use k_o11y_otel_gateway.SpanMetrics.Cache.{SimpleLru}
use k_o11y_otel_gateway.SpanMetrics.Store.{
  Point, collect_metrics, forget_evicted, reset_accumulated, reset_exemplars,
}
use k_o11y_otel_gateway.SpanMetrics.Processor.{Config, Processor}

-- The data points of signoz_calls_total, signoz_latency, the two external call metrics, the two
-- database call metrics and the exponential signoz_latency.
pub record Metrics (F X : Type 0) : Type 0 where
  pub calls : List (Point (HistogramData F))
  pub latencies : List (Point (HistogramData F))
  pub external_calls : List (Point (HistogramData F))
  pub db_calls : List (Point (HistogramData F))
  pub exp_latencies : List (Point X)

module _ (floats : Floats) {X : Type 0} (simple : SimpleLru String Attributes) where
  open floats use {Float}

  unfoldable pub reset_exemplar_data : Processor simple.Lru Float X → Processor simple.Lru Float X
  reset_exemplar_data p = record p {
    latency = reset_exemplars simple (drop_exemplars floats) p.latency;
    call = reset_exemplars simple (drop_exemplars floats) p.call;
    db_call = reset_exemplars simple (drop_exemplars floats) p.db_call;
    external_call = reset_exemplars simple (drop_exemplars floats) p.external_call;
  }

  unfoldable pub reset_accumulated_metrics :
      Processor simple.Lru Float X → Processor simple.Lru Float X
  reset_accumulated_metrics p = record p {
    latency = reset_accumulated simple p.latency;
    exp = reset_accumulated simple p.exp;
    call = reset_accumulated simple p.call;
    db_call = reset_accumulated simple p.db_call;
    external_call = reset_accumulated simple p.external_call;
  }

  unfoldable pub forget_all_evicted : Processor simple.Lru Float X → Processor simple.Lru Float X
  forget_all_evicted p = record p {
    latency = forget_evicted simple p.latency;
    exp = forget_evicted simple p.exp;
    call = forget_evicted simple p.call;
    db_call = forget_evicted simple p.db_call;
    external_call = forget_evicted simple p.external_call;
  }

  -- What follows when all points were collected.
  abbrev pub after_collection : Config → Processor simple.Lru Float X → Processor simple.Lru Float X
  after_collection cfg p =
      let kept : Processor simple.Lru Float X = forget_all_evicted p in
      reset_exemplar_data (if cfg.is_delta then reset_accumulated_metrics kept else kept)

  abbrev pub collected {ℓ} :
      {A : Type ℓ} {S : Type 0}
      → Result A
      → S
      → (A → Result (Metrics Float X) × S)
      → Result (Metrics Float X) × S
  collected (err e) s f = (err e, s)
  collected (ok a) s f = f a

  unfoldable pub build_metrics :
      Config
      → Processor simple.Lru Float X
      → Result (Metrics Float X) × Processor simple.Lru Float X
  build_metrics cfg p =
      let (calls, call') = collect_metrics simple p.call in
      let p1 : Processor simple.Lru Float X = record p { call = call' } in
      collected calls p1 (λ c.
        let (latencies, latency') = collect_metrics simple p1.latency in
        let p2 : Processor simple.Lru Float X = record p1 { latency = latency' } in
        collected latencies p2 (λ l.
          let (externals, external') = collect_metrics simple p2.external_call in
          let p3 : Processor simple.Lru Float X = record p2 { external_call = external' } in
          collected externals p3 (λ e.
            let (dbs, db') = collect_metrics simple p3.db_call in
            let p4 : Processor simple.Lru Float X = record p3 { db_call = db' } in
            collected dbs p4 (λ d.
              let (exps, exp') = collect_metrics simple p4.exp in
              let p5 : Processor simple.Lru Float X = record p4 { exp = exp' } in
              collected exps p5 (λ x. (
                ok (record {
                  calls = c;
                  latencies = l;
                  external_calls = e;
                  db_calls = d;
                  exp_latencies = x;
                }),
                after_collection cfg p5,
              ))))))

  -- The metrics, which every consumer is given, and the state afterwards.
  unfoldable pub export_metrics :
      Config
      → Processor simple.Lru Float X
      → Result (Metrics Float X) × Processor simple.Lru Float X
  export_metrics cfg p = let (m, q) = build_metrics cfg p in (m, reset_exemplar_data q)
