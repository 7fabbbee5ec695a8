-- ===== src/SpanMetrics/Processor/Counts.antt =====
-- The calls that the span metrics processor counts, the metric signoz_calls_total of
-- processor/signozspanmetricsprocessor/processor.go.
use k_o11y_otel_gateway.Prelude.{
  ℕ, ◌+◌, ◌%◌, ◌^◌, String, Bool, true, false, Option, none, some, List, [], ◌∷◌, ◌≡◌, refl, subst,
  ap, arith, Bool-cases, Option-cases, inl, inr, str_eq, if◌then◌else◌,
}
use k_o11y_otel_gateway.SpanMetrics.Span.{Attributes, lookup, Span}
use k_o11y_otel_gateway.SpanMetrics.Histogram.{
  Floats, HistogramData, at, search_floats, add_uint64, new_histogram, observe,
}
use k_o11y_otel_gateway.SpanMetrics.Address.{get_remote_address}
use k_o11y_otel_gateway.SpanMetrics.Cache.{SimpleLru, find_item}
use k_o11y_otel_gateway.SpanMetrics.Store.{
  Store, put_histogram, or_new, cache_dimensions, update_histogram,
}
use k_o11y_otel_gateway.SpanMetrics.Store.Laws.{cache_dimensions-histograms}
use k_o11y_otel_gateway.SpanMetrics.Processor.{
  Config, Processor, Library, and_then, should_skip, is_stale, record_latency, aggregate_latency,
  latency_in_milliseconds, aggregate_exp, aggregate_call, aggregate_external, aggregate_db,
  aggregate_metrics_for_span, is_client, is_server,
}

module _ (floats : Floats) where
  open floats use {Float}

  -- The observations of all histograms of a metric.
  unfoldable pub calls : List (String × HistogramData Float) → ℕ
  calls [] = 0
  calls ((k, h) ∷ hs) = h.count + calls hs

  new_histogram-count : (bounds : List Float) → (new_histogram floats bounds).count ≡ 0
  unfolding new_histogram
  new_histogram-count bounds = refl

  calls-put_histogram :
      (fresh h : HistogramData Float) (k : String) (hs : List (String × HistogramData Float))
      → fresh.count ≡ 0
      → h.count ≡ add_uint64 (or_new fresh (find_item str_eq k hs)).count 1
      → calls (put_histogram k h hs) % 2 ^ 64 ≡ (calls hs + 1) % 2 ^ 64
  unfolding calls put_histogram find_item
  calls-put_histogram fresh h k [] f e = ground (arith, f, e)
  calls-put_histogram fresh h k ((j, i) ∷ hs) f e = elim (Bool-cases (str_eq j k)) [
    | inl here ↦ ground (arith, here, e)
    | inr there ↦ ground (arith, there, e, calls-put_histogram fresh h k hs f)
  ]

  count-observe :
      (bounds : List Float) (x : Float) (trace_id span_id : String) (h i : HistogramData Float)
      → observe floats bounds x trace_id span_id h ≡ some i
      → i.count ≡ add_uint64 h.count 1
  unfolding observe
  count-observe bounds x trace_id span_id h i e =
      elim (Option-cases (at h.bucket_counts (search_floats floats bounds x))) [
        | inl out ↦ absurd (ground (arith, out, e))
        | inr (n, there) ↦ ground (arith, there, e)
      ]

module _ (floats : Floats) {X : Type 0} (lib : Library floats.Float X)
    (simple : SimpleLru String Attributes) (bounds : List floats.Float) (cfg : Config) where
  open floats use {Float}

  abbrev State : Type 0
  State = Processor simple.Lru Float X

  abbrev pub calls_of : State → ℕ
  calls_of p = calls floats p.call.histograms

  abbrev or_else : State → Option State → State
  or_else p none = p
  or_else p (some q) = q

  -- If the step does not panic, it counts `n` calls, modulo 2^64.
  abbrev pub Counts : ℕ → State → Option State → Type 0
  Counts n p x = (q : State) → x ≡ some q → calls_of q % 2 ^ 64 ≡ (calls_of p + n) % 2 ^ 64

  record_latency-calls :
      (key : String) (dims : Attributes) (span : Span)
      (store next : Store simple.Lru (HistogramData Float))
      → record_latency floats lib simple bounds cfg key dims span store ≡ some next
      → calls floats next.histograms % 2 ^ 64 ≡ (calls floats store.histograms + 1) % 2 ^ 64
  unfolding record_latency update_histogram
  record_latency-calls key dims span store next e =
      let before : Store simple.Lru (HistogramData Float) =
        cache_dimensions simple key dims store in
      let old : HistogramData Float =
        or_new (new_histogram floats bounds) (find_item str_eq key before.histograms) in
      let x : Float = latency_in_milliseconds floats lib simple bounds cfg span in
      elim (Option-cases (observe floats bounds x span.trace_id span.span_id old)) [
        | inl panicked ↦ absurd (ground (arith, panicked, e))
        | inr (h, done) ↦ ground (
          arith,
          done,
          e,
          count-observe floats bounds x span.trace_id span.span_id old h done,
          cache_dimensions-histograms simple key dims store,
          calls-put_histogram floats (new_histogram floats bounds) h key before.histograms
              (new_histogram-count floats bounds),
        )
      ]

  pub and_then-Counts :
      (m n : ℕ) (p : State) (x : Option State) (f : State → Option State)
      → Counts m p x
      → ((r : State) → Counts n r (f r))
      → Counts (m + n) p (and_then x f)
  and_then-Counts m n p none f hx hf q e = absurd (ground (arith, e))
  and_then-Counts m n p (some r) f hx hf q e = ground (arith, hx r refl, hf r q e)

  if-Counts :
      (b : Bool) (m n : ℕ) (p : State) (x y : Option State)
      → Counts m p x
      → Counts n p y
      → Counts (if b then m else n) p (if b then x else y)
  if-Counts true m n p x y hx hy = hx
  if-Counts false m n p x y hx hy = hy

  option-Counts :
      {A : Type 0} (o : Option A) (n : ℕ) (p : State) (x : Option State) (f : A → Option State)
      → Counts n p x
      → ((a : A) → Counts n p (f a))
      → Counts n p (elim o [ none ↦ x | some a ↦ f a ])
  option-Counts none n p x f hx hf = hx
  option-Counts (some a) n p x f hx hf = hf a

  if_same-Counts :
      (b : Bool) (n : ℕ) (p : State) (x y : Option State)
      → Counts n p x
      → Counts n p y
      → Counts n p (if b then x else y)
  if_same-Counts true n p x y hx hy = hx
  if_same-Counts false n p x y hx hy = hy

  pub unmoved-Counts : (p : State) → Counts 0 p (some p)
  unmoved-Counts p q e = ground (arith, ap (λ x. x) e)

  -- A step that fills one store.
  store-Counts :
      {S : Type 0} (n : ℕ) (x : Option S) (p : State) (f : S → State)
      → ((s : S) → x ≡ some s → calls_of (f s) % 2 ^ 64 ≡ (calls_of p + n) % 2 ^ 64)
      → Counts n p (and_then x (λ s. some (f s)))
  store-Counts n none p f counted q e = absurd (ground (arith, e))
  store-Counts n (some s) p f counted q e =
      subst (λ r. calls_of r % 2 ^ 64 ≡ (calls_of p + n) % 2 ^ 64) (ap (or_else (f s)) e)
        (counted s refl)

  aggregate_latency-Counts :
      (service : String) (span : Span) (attrs : Attributes) (p : State)
      → Counts 0 p (aggregate_latency floats lib simple bounds cfg service span attrs p)
  unfolding aggregate_latency
  aggregate_latency-Counts service span attrs p = store-Counts 0 _ p _ (λ s e. ground arith)

  aggregate_exp-Counts :
      (service : String) (span : Span) (attrs : Attributes) (p : State)
      → Counts 0 p (aggregate_exp floats lib simple bounds cfg service span attrs p)
  unfolding aggregate_exp
  aggregate_exp-Counts service span attrs p = store-Counts 0 _ p _ (λ s e. ground arith)

  aggregate_external-Counts :
      (service : String) (span : Span) (attrs : Attributes) (p : State)
      → Counts 0 p (aggregate_external floats lib simple bounds cfg service span attrs p)
  unfolding aggregate_external
  aggregate_external-Counts service span attrs p =
      option-Counts (get_remote_address lib.url_host span) 0 p _ _ (unmoved-Counts p) (λ addr.
        if_same-Counts (is_client span.kind) 0 p _ _ (store-Counts 0 _ p _ (λ s e. ground arith))
          (unmoved-Counts p))

  aggregate_db-Counts :
      (service : String) (span : Span) (attrs : Attributes) (p : State)
      → Counts 0 p (aggregate_db floats lib simple bounds cfg service span attrs p)
  unfolding aggregate_db
  aggregate_db-Counts service span attrs p =
      option-Counts (lookup "db.system" span.attributes) 0 p _ _ (unmoved-Counts p) (λ v.
        if_same-Counts (is_server span.kind) 0 p _ _ (unmoved-Counts p)
          (store-Counts 0 _ p _ (λ s e. ground arith)))

  aggregate_call-Counts :
      (service : String) (span : Span) (attrs : Attributes) (p : State)
      → Counts 1 p (aggregate_call floats lib simple bounds cfg service span attrs p)
  unfolding aggregate_call
  aggregate_call-Counts service span attrs p =
      store-Counts 1 _ p _ (λ next e. record_latency-calls _ _ span p.call next e)

  -- The calls of a span: none if it is too old or excluded, else one.
  unfoldable pub span_calls : ℕ → String → Attributes → Span → ℕ
  span_calls now service attrs span =
      if is_stale floats lib simple bounds cfg now span
      then 0
      else if should_skip floats lib simple bounds cfg service span attrs
      then 0
      else 1

  pub aggregate_metrics_for_span-Counts :
      (now : ℕ) (service : String) (attrs : Attributes) (span : Span) (p : State)
      → Counts
          (span_calls now service attrs span)
          p
          (aggregate_metrics_for_span floats lib simple bounds cfg now service attrs span p)
  unfolding span_calls aggregate_metrics_for_span
  aggregate_metrics_for_span-Counts now service attrs span p =
      if-Counts _ 0 _ p _ _ (unmoved-Counts p) (
        if-Counts _ 0 1 p _ _ (unmoved-Counts p) (
          and_then-Counts 0 1 p _ _ (aggregate_latency-Counts service span attrs p) (λ p1.
            and_then-Counts 0 1 p1 _ _
              (if_same-Counts cfg.enable_exp_histogram 0 p1 _ _
                (aggregate_exp-Counts service span attrs p1) (unmoved-Counts p1))
              (λ p2. and_then-Counts 1 0 p2 _ _ (aggregate_call-Counts service span attrs p2) (λ p3.
                and_then-Counts 0 0 p3 _ _ (aggregate_external-Counts service span attrs p3)
                  (λ p4. aggregate_db-Counts service span attrs p4))))))
