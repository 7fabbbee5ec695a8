-- ===== src/SpanMetrics/Store.antt =====
-- The histograms of one metric with the cache of their dimensions: what `cache` and its four copies,
-- `updateHistogram` and its copies, and the loops of `buildMetrics` do,
-- processor/signozspanmetricsprocessor/processor.go. The histogram type is a parameter.
pub mod Laws
use k_o11y_otel_gateway.Prelude.{
  String, Bool, true, false, Option, none, some, List, [], ◌∷◌, map, if◌then◌else◌, str_eq,
}
use k_o11y_otel_gateway.Prelude.Results.{Result, ok, err}
use k_o11y_otel_gateway.SpanMetrics.Span.{Attributes}
use k_o11y_otel_gateway.SpanMetrics.Cache.{
  SimpleLru, Cache, find_item, add, get, contains, remove_evicted_items, purge,
}

pub record Store (L H : Type 0) : Type 0 where
  pub histograms : List (String × H)
  pub dimensions : Cache L String Attributes

module _ {H : Type 0} where
  unfoldable pub put_histogram : String → H → List (String × H) → List (String × H)
  put_histogram k h [] = (k, h) ∷ []
  put_histogram k h ((j, g) ∷ hs) =
      let rest = put_histogram k h hs in if str_eq j k then (k, h) ∷ hs else (j, g) ∷ rest

  abbrev pub or_new : H → Option H → H
  or_new fresh none = fresh
  or_new fresh (some h) = h

-- A data point: the key, whose prefix holds the times, the histogram and the dimensions.
abbrev pub Point : Type 0 → Type 0
Point H = String × H × Attributes

module _ {H : Type 0} (simple : SimpleLru String Attributes) where
  -- A key without dimensions gets them.
  unfoldable pub cache_dimensions : String → Attributes → Store simple.Lru H → Store simple.Lru H
  cache_dimensions k dims p =
      let (hit, looked) = get str_eq simple k p.dimensions in
      elim hit [
        | some _ ↦ record p { dimensions = looked }
        | none ↦ record p { dimensions = (add str_eq simple k dims looked).1 }
      ]

  -- The histogram of the key is updated, a new one if there is none; `none` is a panic.
  unfoldable pub update_histogram :
      H → (H → Option H) → String → Store simple.Lru H → Option (Store simple.Lru H)
  update_histogram fresh update k p =
      elim (update (or_new fresh (find_item str_eq k p.histograms))) [
        | none ↦ none
        | some h ↦ some (record p { histograms = put_histogram k h p.histograms })
      ]

  -- The loop over the histograms, which ends at the first key without dimensions.
  unfoldable pub collect :
      List (String × H)
      → Cache simple.Lru String Attributes
      → Result (List (Point H)) × Cache simple.Lru String Attributes
  collect [] c = (ok [], c)
  collect ((k, h) ∷ hs) c =
      let (hit, looked) = get str_eq simple k c in
      let (points, rest) = collect hs looked in
      elim hit [
        | none ↦ (err "value not found in cache", looked)
        | some dims ↦ elim points [ err e ↦ (err e, rest) | ok ps ↦ (ok ((k, h, dims) ∷ ps), rest) ]
      ]

  unfoldable pub collect_metrics : Store simple.Lru H → Result (List (Point H)) × Store simple.Lru H
  collect_metrics p =
      let (points, c) = collect p.histograms p.dimensions in (points, record p { dimensions = c })

  unfoldable pub keep_contained :
      Cache simple.Lru String Attributes → List (String × H) → List (String × H)
  keep_contained c [] = []
  keep_contained c ((k, h) ∷ hs) =
      let rest = keep_contained c hs in if contains str_eq simple k c then (k, h) ∷ rest else rest

  -- The evicted dimensions go, and the histograms without dimensions with them.
  unfoldable pub forget_evicted : Store simple.Lru H → Store simple.Lru H
  forget_evicted p =
      let c = remove_evicted_items str_eq simple p.dimensions in
      record { histograms = keep_contained c p.histograms; dimensions = c }

  unfoldable pub reset_accumulated : Store simple.Lru H → Store simple.Lru H
  reset_accumulated p = record { histograms = []; dimensions = purge str_eq simple p.dimensions }

  unfoldable pub reset_exemplars : (H → H) → Store simple.Lru H → Store simple.Lru H
  reset_exemplars drop p = record p { histograms = map (λ (k, h). (k, drop h)) p.histograms }
