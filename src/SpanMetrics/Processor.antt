-- ===== src/SpanMetrics/Processor.antt =====
-- The span metrics processor: what it counts of the spans, `ConsumeTraces`, `aggregateMetrics` and
-- `aggregateMetricsForSpan`, processor/signozspanmetricsprocessor/processor.go.
pub mod Calls
pub mod Counts
pub mod Export
pub mod Laws
pub mod Runs
pub mod Totals
use Prim.Native.String.{◌++◌}
use k_o11y_otel_gateway.Prelude.{
  ℕ, ◌+◌, ◌-◌, String, Bool, true, false, not, ◌&&◌, ◌||◌, Option, none, some, List, [], ◌∷◌, any,
  ltb, if◌then◌else◌, str_eq,
}
use k_o11y_otel_gateway.SpanMetrics.Span.{
  Value, Attributes, lookup, put_str, text_value, SpanKind, server, client, StatusCode, Span,
}
use k_o11y_otel_gateway.SpanMetrics.Keys.{
  Dimension, Services, Limits, build_key, build_custom_key, time_prefix, build_dimension_kvs,
  build_custom_dimension_kvs,
}
use k_o11y_otel_gateway.SpanMetrics.Histogram.{Floats, HistogramData, new_histogram, observe}
use k_o11y_otel_gateway.SpanMetrics.Address.{get_remote_address}
use k_o11y_otel_gateway.SpanMetrics.Cache.{SimpleLru}
use k_o11y_otel_gateway.SpanMetrics.Store.{Store, cache_dimensions, update_histogram}

-- The configuration that the processor was built from; the exclude patterns are tests by name.
pub record Config : Type 0 where
  pub is_delta : Bool
  pub time_bucket_interval : ℕ
  pub enable_exp_histogram : Bool
  pub skip_spans_older_than : ℕ
  pub limits : Limits
  pub instance_id : String
  pub dimensions : List Dimension
  pub exp_dimensions : List Dimension
  pub call_dimensions : List Dimension
  pub db_call_dimensions : List Dimension
  pub external_call_dimensions : List Dimension
  pub exclude_patterns : List (String × (String → Bool))

-- The state: the services seen, and the histograms of the five metrics.
pub record Processor (L F X : Type 0) : Type 0 where
  pub services : Services
  pub latency : Store L (HistogramData F)
  pub exp : Store L X
  pub call : Store L (HistogramData F)
  pub db_call : Store L (HistogramData F)
  pub external_call : Store L (HistogramData F)

-- The names of kinds and codes in the package pdata, the host of a URL, and the exponential
-- histogram, each from its library.
pub record Library (F X : Type 0) : Type 0 where
  pub kind_string : SpanKind → String
  pub code_string : StatusCode → String
  pub url_host : String → Option String
  pub new_exp_histogram : X
  pub update_exp_histogram : F → X → X

pub record ResourceSpans : Type 0 where
  pub resource : Attributes
  pub scopes : List (List Span)

abbrev pub and_then {ℓ} : {A B : Type ℓ} → Option A → (A → Option B) → Option B
and_then none f = none
and_then (some a) f = f a

abbrev has_match : String → (String → Bool) → Attributes → Bool
has_match key matches attrs = any (λ (k, v). str_eq key k && matches v.as_string) attrs

abbrev pub is_client : SpanKind → Bool
is_client client = true
is_client _ = false

abbrev pub is_server : SpanKind → Bool
is_server server = true
is_server _ = false

module _ (floats : Floats) {X : Type 0} (lib : Library floats.Float X)
    (simple : SimpleLru String Attributes) (bounds : List floats.Float) (cfg : Config) where
  open floats use {Float, zero_float, millis}

  abbrev pub State : Type 0
  State = Processor simple.Lru Float X

  abbrev is_excluded : String → Span → Attributes → String × (String → Bool) → Bool
  is_excluded service span resource_attrs (key, matches) =
      (str_eq key "service.name" && matches service)
      || (str_eq key "operation" && matches span.name)
      || (str_eq key "span.kind" && matches (lib.kind_string span.kind))
      || (str_eq key "status.code" && matches (lib.code_string span.status))
      || has_match key matches span.attributes
      || has_match key matches resource_attrs

  unfoldable pub should_skip : String → Span → Attributes → Bool
  should_skip service span resource_attrs =
      any (is_excluded service span resource_attrs) cfg.exclude_patterns

  -- Before the last permissible time, when spans are skipped by their age.
  unfoldable pub is_stale : ℕ → Span → Bool
  is_stale now span =
      ltb 0 cfg.skip_spans_older_than && ltb (span.start_timestamp + cfg.skip_spans_older_than) now

  unfoldable pub latency_in_milliseconds : Span → Float
  latency_in_milliseconds span =
      if ltb span.start_timestamp span.end_timestamp
      then millis (span.end_timestamp - span.start_timestamp)
      else zero_float

  abbrev pub bucket_prefix : Span → String
  bucket_prefix span = time_prefix cfg.is_delta cfg.time_bucket_interval span.start_timestamp

  -- The dimensions of the key and the update of its histogram.
  unfoldable pub record_latency :
      String
      → Attributes
      → Span
      → Store simple.Lru (HistogramData Float)
      → Option (Store simple.Lru (HistogramData Float))
  record_latency key dims span store =
      update_histogram simple (new_histogram floats bounds)
        (observe floats bounds (latency_in_milliseconds span) span.trace_id span.span_id) key
        (cache_dimensions simple key dims store)

  abbrev pub key_of : String → Span → List Dimension → Attributes → Services → String × Services
  key_of service span dims resource_attrs ss =
      let (key, seen) = build_key cfg.limits service span dims resource_attrs ss in
      (bucket_prefix span ++ key, seen)

  unfoldable pub aggregate_latency : String → Span → Attributes → State → Option State
  aggregate_latency service span resource_attrs p =
      let (key, seen) = key_of service span cfg.dimensions resource_attrs p.services in
      let dims : Attributes =
        build_dimension_kvs cfg.limits seen service span cfg.dimensions resource_attrs in
      and_then (record_latency key dims span p.latency)
        (λ store. some (record p { services = seen; latency = store }))

  unfoldable pub aggregate_exp : String → Span → Attributes → State → Option State
  aggregate_exp service span resource_attrs p =
      let (key, seen) = key_of service span cfg.exp_dimensions resource_attrs p.services in
      let dims : Attributes =
        build_dimension_kvs cfg.limits seen service span cfg.exp_dimensions resource_attrs in
      and_then
        (update_histogram simple lib.new_exp_histogram
          (λ h. some (lib.update_exp_histogram (latency_in_milliseconds span) h)) key
          (cache_dimensions simple key dims p.exp))
        (λ store. some (record p { services = seen; exp = store }))

  unfoldable pub aggregate_call : String → Span → Attributes → State → Option State
  aggregate_call service span resource_attrs p =
      let (key, seen) = key_of service span cfg.call_dimensions resource_attrs p.services in
      let dims : Attributes =
        build_dimension_kvs cfg.limits seen service span cfg.call_dimensions resource_attrs in
      and_then (record_latency key dims span p.call)
        (λ store. some (record p { services = seen; call = store }))

  unfoldable pub aggregate_external : String → Span → Attributes → State → Option State
  aggregate_external service span resource_attrs p = elim (get_remote_address lib.url_host span) [
    | none ↦ some p
    | some addr ↦
        if is_client span.kind
        then (let key : String =
              bucket_prefix span
              ++ build_custom_key service span cfg.external_call_dimensions resource_attrs
                  (addr ∷ []) in
            let dims : Attributes =
              build_custom_dimension_kvs service span cfg.external_call_dimensions resource_attrs
                (("address", text_value addr) ∷ []) in
            and_then (record_latency key dims span p.external_call)
              (λ store. some (record p { external_call = store })))
        else some p
  ]

  unfoldable pub aggregate_db : String → Span → Attributes → State → Option State
  aggregate_db service span resource_attrs p = elim (lookup "db.system" span.attributes) [
    | none ↦ some p
    | some _ ↦
        if is_server span.kind
        then some p
        else (let key : String =
              bucket_prefix span
              ++ build_custom_key service span cfg.db_call_dimensions resource_attrs [] in
            let dims : Attributes =
              build_custom_dimension_kvs service span cfg.db_call_dimensions resource_attrs [] in
            and_then (record_latency key dims span p.db_call)
              (λ store. some (record p { db_call = store })))
  ]

  unfoldable pub aggregate_metrics_for_span : ℕ → String → Attributes → Span → State → Option State
  aggregate_metrics_for_span now service resource_attrs span p =
      if is_stale now span
      then some p
      else if should_skip service span resource_attrs
      then some p
      else and_then (aggregate_latency service span resource_attrs p) (λ p1.
        and_then
          (if cfg.enable_exp_histogram
            then aggregate_exp service span resource_attrs p1
            else some p1)
          (λ p2. and_then (aggregate_call service span resource_attrs p2) (λ p3.
            and_then (aggregate_external service span resource_attrs p3)
              (λ p4. aggregate_db service span resource_attrs p4))))

  unfoldable pub aggregate_spans : ℕ → String → Attributes → List Span → State → Option State
  aggregate_spans now service resource_attrs [] p = some p
  aggregate_spans now service resource_attrs (span ∷ spans) p =
      and_then (aggregate_metrics_for_span now service resource_attrs span p)
        (λ q. aggregate_spans now service resource_attrs spans q)

  unfoldable pub aggregate_scopes :
      ℕ → String → Attributes → List (List Span) → State → Option State
  aggregate_scopes now service resource_attrs [] p = some p
  aggregate_scopes now service resource_attrs (spans ∷ scopes) p =
      and_then (aggregate_spans now service resource_attrs spans p)
        (λ q. aggregate_scopes now service resource_attrs scopes q)

  -- The resource with the instance id that `PutStr` writes into it.
  abbrev pub marked : ResourceSpans → Attributes
  marked r = put_str "signoz.collector.id" cfg.instance_id r.resource

  -- A resource without the name of a service is passed over. The traces come back as they are left.
  unfoldable pub aggregate_metrics :
      ℕ → List ResourceSpans → State → Option (State × List ResourceSpans)
  aggregate_metrics now [] p = some (p, [])
  aggregate_metrics now (r ∷ rs) p = elim (lookup "service.name" r.resource) [
    | none ↦ and_then (aggregate_metrics now rs p) (λ (q, rest). some (q, r ∷ rest))
    | some service ↦ and_then (aggregate_scopes now service.str (marked r) r.scopes p) (λ q.
        and_then (aggregate_metrics now rs q)
          (λ (q', rest). some (q', record r { resource = marked r } ∷ rest)))
  ]

  -- The state, and the traces that the next consumer is given.
  unfoldable pub consume_traces :
      ℕ → List ResourceSpans → State → Option (State × List ResourceSpans)
  consume_traces now traces p = aggregate_metrics now traces p
