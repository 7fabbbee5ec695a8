-- ===== src/SpanMetrics/Histogram.antt =====
-- The histogram of one metric key, `histogramData` and the functions that update it,
-- processor/signozspanmetricsprocessor/processor.go. The float64 numbers are a parameter.
pub mod Buckets
pub mod Laws
use k_o11y_otel_gateway.Prelude.{
  ℕ, zero, suc, ◌+◌, ◌/◌, ◌%◌, ◌^◌, Bool, true, false, not, Option, none, some, String, List, [],
  ◌∷◌, ◌++◌, length, set, replicate, ltb, if◌then◌else◌,
}

-- The operations of float64 that the processor uses: the sum, the order, and the milliseconds of a
-- number of nanoseconds.
pub record Floats : Type 1 where
  pub Float : Type 0
  pub zero_float : Float
  pub add_float : Float → Float → Float
  pub is_below : Float → Float → Bool
  pub millis : ℕ → Float

-- What stands at an index of a list.
abbrev pub at {ℓ} : {A : Type ℓ} → List A → ℕ → Option A
at [] i = none
at (x ∷ xs) zero = some x
at (x ∷ xs) (suc i) = at xs i

pub record Exemplar (F : Type 0) : Type 0 where
  pub trace_id : String
  pub span_id : String
  pub value : F

pub record HistogramData (F : Type 0) : Type 0 where
  pub count : ℕ
  pub sum : F
  pub bucket_counts : List ℕ
  pub exemplars_data : List (Exemplar F)

abbrev pub add_uint64 : ℕ → ℕ → ℕ
add_uint64 a b = (a + b) % 2 ^ 64

module _ (floats : Floats) where
  open floats use {Float, zero_float, add_float, is_below, millis}

  -- Whether the bound at the index is at least `x`; an index out of range is not reached.
  abbrev pub at_least : List Float → Float → ℕ → Bool
  at_least bounds x h = elim (at bounds h) [ none ↦ true | some b ↦ not (is_below b x) ]

  -- `sort.Search`: the fuel is the number of bounds, and every round makes the range smaller.
  unfoldable pub search_from : List Float → Float → ℕ → ℕ → ℕ → ℕ
  search_from bounds x zero i j = i
  search_from bounds x (suc fuel) i j =
      let h = (i + j) / 2 in
      let upper = search_from bounds x fuel (suc h) j in
      let lower = search_from bounds x fuel i h in
      if ltb i j then if at_least bounds x h then lower else upper else i

  -- `sort.SearchFloat64s`.
  unfoldable pub search_floats : List Float → Float → ℕ
  search_floats bounds x = search_from bounds x (length bounds) 0 (length bounds)

  unfoldable pub new_histogram : List Float → HistogramData Float
  new_histogram bounds = record {
    count = 0;
    sum = zero_float;
    bucket_counts = replicate (suc (length bounds)) 0;
    exemplars_data = [];
  }

  -- The histogram with one latency more, which falls into the bucket at `index`, where `n` stood.
  abbrev pub observed :
      Float
      → (trace_id span_id : String) → (index n : ℕ) → HistogramData Float
      → HistogramData Float
  observed latency trace_id span_id index n histo = record {
    count = add_uint64 histo.count 1;
    sum = add_float histo.sum latency;
    bucket_counts = set histo.bucket_counts index (add_uint64 n 1);
    exemplars_data =
        histo.exemplars_data
        ++ (record { trace_id = trace_id; span_id = span_id; value = latency } ∷ []);
  }

  -- What the update does to the histogram of the key; `none` is a panic on the index.
  unfoldable pub observe :
      List Float
      → Float
      → (trace_id span_id : String) → HistogramData Float
      → Option (HistogramData Float)
  observe bounds latency trace_id span_id histo =
      let index = search_floats bounds latency in
      elim (at histo.bucket_counts index) [
        | none ↦ none
        | some n ↦ some (observed latency trace_id span_id index n histo)
      ]

  unfoldable pub drop_exemplars : HistogramData Float → HistogramData Float
  drop_exemplars histo = record histo { exemplars_data = [] }
