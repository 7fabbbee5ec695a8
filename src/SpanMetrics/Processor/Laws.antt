-- ===== src/SpanMetrics/Processor/Laws.antt =====
-- Whatever spans come in and however often the metrics are built, no step of the span metrics
-- processor panics and no metric misses its dimensions,
-- processor/signozspanmetricsprocessor/processor.go.
use k_o11y_otel_gateway.Prelude.{
  ℕ, String, Bool, Option, none, some, List, ◌≡◌, refl, sym, subst, arith, Bool-cases, inl, inr,
  str_eq, if◌then◌else◌,
}
use k_o11y_otel_gateway.SpanMetrics.Span.{Attributes, lookup, Span}
use k_o11y_otel_gateway.SpanMetrics.Keys.{Dimension, Services, build_dimension_kvs}
use k_o11y_otel_gateway.SpanMetrics.Keys.Laws.{AreLimited, build_key-AreLimited}
use k_o11y_otel_gateway.SpanMetrics.Histogram.{Floats, HistogramData}
use k_o11y_otel_gateway.SpanMetrics.Histogram.Laws.{
  IsCounted, observe-IsCounted, new_histogram-IsCounted,
}
use k_o11y_otel_gateway.SpanMetrics.Address.{get_remote_address}
use k_o11y_otel_gateway.SpanMetrics.Cache.{SimpleLru}
use k_o11y_otel_gateway.SpanMetrics.Cache.Laws.{IsLru}
use k_o11y_otel_gateway.SpanMetrics.Store.{Store}
use k_o11y_otel_gateway.SpanMetrics.Store.Laws
use k_o11y_otel_gateway.SpanMetrics.Store.Laws.{
  update_histogram-IsSound, collect_metrics-IsSound, forget_evicted-IsSound,
  reset_accumulated-IsSound, reset_exemplars-IsSound,
}
use k_o11y_otel_gateway.SpanMetrics.Processor.{
  Config, Processor, Library, and_then, record_latency, aggregate_latency, aggregate_exp,
  aggregate_call, aggregate_external, aggregate_db, aggregate_metrics_for_span, is_client,
  is_server, latency_in_milliseconds, key_of,
}

module _ (floats : Floats) {X : Type 0} (lib : Library floats.Float X)
    (simple : SimpleLru String Attributes) (peek : simple.Lru → String → Option Attributes)
    (laws : IsLru str_eq simple peek) (bounds : List floats.Float) (cfg : Config) where
  open floats use {Float}

  abbrev pub IsSoundStore : Store simple.Lru (HistogramData Float) → Type 0
  IsSoundStore p = Laws.IsSound (IsCounted floats bounds) simple peek p

  -- The services are within their limits; every histogram of the five metrics has its dimensions in its
  -- cache, and the buckets of its count.
  pub record IsSound (p : Processor simple.Lru Float X) : Type 0 where
    pub services : AreLimited cfg.limits p.services
    pub latency : IsSoundStore p.latency
    pub exp : Laws.IsSound (λ (x : X). Unit) simple peek p.exp
    pub call : IsSoundStore p.call
    pub db_call : IsSoundStore p.db_call
    pub external_call : IsSoundStore p.external_call

  -- The step does not panic, and leaves a sound state.
  abbrev pub IsDone : Option (Processor simple.Lru Float X) → Type 0
  IsDone x = (q : Processor simple.Lru Float X) × (x ≡ some q) × IsSound q

  pub and_then-IsDone :
      (x : Option (Processor simple.Lru Float X))
      (f : Processor simple.Lru Float X → Option (Processor simple.Lru Float X))
      → IsDone x
      → ((q : Processor simple.Lru Float X) → IsSound q → IsDone (f q))
      → IsDone (and_then x f)
  and_then-IsDone x f (p, e, s) h =
      let (q, done, t) = h p s in (q, subst (λ y. and_then y f ≡ some q) (sym e) done, t)

  record_latency-IsSound :
      (key : String) (dims : Attributes) (span : Span)
      (store : Store simple.Lru (HistogramData Float))
      → IsSoundStore store
      → (next : Store simple.Lru (HistogramData Float)) × (record_latency floats lib simple bounds
            cfg key dims span store
          ≡ some next)
        × IsSoundStore next
  unfolding record_latency
  record_latency-IsSound key dims span store s =
      update_histogram-IsSound (IsCounted floats bounds) simple peek laws _ _ key dims store
        (new_histogram-IsCounted floats bounds)
        (λ h c.
          let (next, done, t, n) = observe-IsCounted floats bounds _ _ _ h c in (next, done, t))
        s

  -- The key and the services of a metric with its own dimensions, and the dimensions under it.
  abbrev keyed : String → Span → List Dimension → Attributes → Services → String × Services
  keyed = key_of floats lib simple bounds cfg

  abbrev dims_of : Services → String → Span → List Dimension → Attributes → Attributes
  dims_of seen service span dims resource_attrs =
      build_dimension_kvs cfg.limits seen service span dims resource_attrs

  aggregate_latency-IsSound :
      (service : String) (span : Span) (resource_attrs : Attributes)
      (p : Processor simple.Lru Float X)
      → IsSound p
      → IsDone (aggregate_latency floats lib simple bounds cfg service span resource_attrs p)
  unfolding aggregate_latency
  aggregate_latency-IsSound service span resource_attrs p s =
      let ks : String × Services = keyed service span cfg.dimensions resource_attrs p.services in
      let (next, done, t) =
        record_latency-IsSound ks.0 (dims_of ks.1 service span cfg.dimensions resource_attrs) span
          p.latency s.latency in
      let q : Processor simple.Lru Float X = record p { services = ks.1; latency = next } in
      (
        q,
        ground (arith, done),
        record {
          services =
              build_key-AreLimited cfg.limits service span cfg.dimensions resource_attrs p.services
                s.services;
          latency = t;
          exp = s.exp;
          call = s.call;
          db_call = s.db_call;
          external_call = s.external_call;
        },
      )

  aggregate_call-IsSound :
      (service : String) (span : Span) (resource_attrs : Attributes)
      (p : Processor simple.Lru Float X)
      → IsSound p
      → IsDone (aggregate_call floats lib simple bounds cfg service span resource_attrs p)
  unfolding aggregate_call
  aggregate_call-IsSound service span resource_attrs p s =
      let ks : String × Services =
        keyed service span cfg.call_dimensions resource_attrs p.services in
      let (next, done, t) =
        record_latency-IsSound ks.0 (dims_of ks.1 service span cfg.call_dimensions resource_attrs)
          span p.call s.call in
      let q : Processor simple.Lru Float X = record p { services = ks.1; call = next } in
      (
        q,
        ground (arith, done),
        record {
          services =
              build_key-AreLimited cfg.limits service span cfg.call_dimensions resource_attrs
                p.services s.services;
          latency = s.latency;
          exp = s.exp;
          call = t;
          db_call = s.db_call;
          external_call = s.external_call;
        },
      )

  aggregate_exp-IsSound :
      (service : String) (span : Span) (resource_attrs : Attributes)
      (p : Processor simple.Lru Float X)
      → IsSound p
      → IsDone (aggregate_exp floats lib simple bounds cfg service span resource_attrs p)
  unfolding aggregate_exp
  aggregate_exp-IsSound service span resource_attrs p s =
      let ks : String × Services =
        keyed service span cfg.exp_dimensions resource_attrs p.services in
      let update : X → Option X = λ h.
        some (
          lib.update_exp_histogram (latency_in_milliseconds floats lib simple bounds cfg span) h) in
      let (next, done, t) =
        update_histogram-IsSound (λ (x : X). Unit) simple peek laws lib.new_exp_histogram update
          ks.0 (dims_of ks.1 service span cfg.exp_dimensions resource_attrs) p.exp tt
          (λ h g. (
            lib.update_exp_histogram (latency_in_milliseconds floats lib simple bounds cfg span) h,
            refl,
            tt,
          ))
          s.exp in
      let q : Processor simple.Lru Float X = record p { services = ks.1; exp = next } in
      (
        q,
        ground (arith, done),
        record {
          services =
              build_key-AreLimited cfg.limits service span cfg.exp_dimensions resource_attrs
                p.services s.services;
          latency = s.latency;
          exp = t;
          call = s.call;
          db_call = s.db_call;
          external_call = s.external_call;
        },
      )

  -- The two metrics with an own key, when the span has what they count.
  record_external-IsSound :
      (key : String) (dims : Attributes) (span : Span) (p : Processor simple.Lru Float X)
      → IsSound p
      → IsDone (
          and_then
            (record_latency floats lib simple bounds cfg key dims span p.external_call)
            (λ store. some (record p { external_call = store })))
  record_external-IsSound key dims span p s =
      let (next, done, t) = record_latency-IsSound key dims span p.external_call s.external_call in
      let q : Processor simple.Lru Float X = record p { external_call = next } in
      (
        q,
        ground (arith, done),
        record {
          services = s.services;
          latency = s.latency;
          exp = s.exp;
          call = s.call;
          db_call = s.db_call;
          external_call = t;
        },
      )

  record_db-IsSound :
      (key : String) (dims : Attributes) (span : Span) (p : Processor simple.Lru Float X)
      → IsSound p
      → IsDone (
          and_then
            (record_latency floats lib simple bounds cfg key dims span p.db_call)
            (λ store. some (record p { db_call = store })))
  record_db-IsSound key dims span p s =
      let (next, done, t) = record_latency-IsSound key dims span p.db_call s.db_call in
      let q : Processor simple.Lru Float X = record p { db_call = next } in
      (
        q,
        ground (arith, done),
        record {
          services = s.services;
          latency = s.latency;
          exp = s.exp;
          call = s.call;
          db_call = t;
          external_call = s.external_call;
        },
      )

  pub unmoved-IsDone : (p : Processor simple.Lru Float X) → IsSound p → IsDone (some p)
  unmoved-IsDone p s = (p, refl, s)

  -- A test does not matter if both of its branches leave a sound state.
  if-IsDone :
      (b : Bool) (x y : Option (Processor simple.Lru Float X))
      → IsDone x
      → IsDone y
      → IsDone (if b then x else y)
  if-IsDone b x y dx dy = elim (Bool-cases b) [
    | inl t ↦ subst (λ c. IsDone (if c then x else y)) (sym t) dx
    | inr f ↦ subst (λ c. IsDone (if c then x else y)) (sym f) dy
  ]

  option-IsDone :
      {A : Type 0} (o : Option A) (x : Option (Processor simple.Lru Float X))
      (f : A → Option (Processor simple.Lru Float X))
      → IsDone x
      → ((a : A) → IsDone (f a))
      → IsDone (elim o [ none ↦ x | some a ↦ f a ])
  option-IsDone none x f dx df = dx
  option-IsDone (some a) x f dx df = df a

  aggregate_external-IsSound :
      (service : String) (span : Span) (resource_attrs : Attributes)
      (p : Processor simple.Lru Float X)
      → IsSound p
      → IsDone (aggregate_external floats lib simple bounds cfg service span resource_attrs p)
  unfolding aggregate_external
  aggregate_external-IsSound service span resource_attrs p s =
      option-IsDone (get_remote_address lib.url_host span) _ _ (unmoved-IsDone p s) (λ addr.
        if-IsDone (is_client span.kind) _ _ (record_external-IsSound _ _ span p s)
          (unmoved-IsDone p s))

  aggregate_db-IsSound :
      (service : String) (span : Span) (resource_attrs : Attributes)
      (p : Processor simple.Lru Float X)
      → IsSound p
      → IsDone (aggregate_db floats lib simple bounds cfg service span resource_attrs p)
  unfolding aggregate_db
  aggregate_db-IsSound service span resource_attrs p s =
      option-IsDone (lookup "db.system" span.attributes) _ _ (unmoved-IsDone p s) (λ v.
        if-IsDone (is_server span.kind) _ _ (unmoved-IsDone p s) (record_db-IsSound _ _ span p s))

  pub aggregate_metrics_for_span-IsSound :
      (now : ℕ) (service : String) (resource_attrs : Attributes) (span : Span)
      (p : Processor simple.Lru Float X)
      → IsSound p
      → IsDone (
          aggregate_metrics_for_span floats lib simple bounds cfg now service resource_attrs span p)
  unfolding aggregate_metrics_for_span
  aggregate_metrics_for_span-IsSound now service attrs span p s =
      if-IsDone _ _ _ (unmoved-IsDone p s) (
        if-IsDone _ _ _ (unmoved-IsDone p s) (
          and_then-IsDone _ _ (aggregate_latency-IsSound service span attrs p s) (λ p1 s1.
            and_then-IsDone _ _
              (if-IsDone cfg.enable_exp_histogram _ _
                (aggregate_exp-IsSound service span attrs p1 s1) (unmoved-IsDone p1 s1))
              (λ p2 s2.
                and_then-IsDone _ _ (aggregate_call-IsSound service span attrs p2 s2) (λ p3 s3.
                  and_then-IsDone _ _ (aggregate_external-IsSound service span attrs p3 s3)
                    (λ p4 s4. aggregate_db-IsSound service span attrs p4 s4))))))
