-- ===== src/SpanMetrics/Store/Laws.antt =====
-- Every histogram keeps its dimensions in the cache, until both are forgotten,
-- processor/signozspanmetricsprocessor/processor.go.
use k_o11y_otel_gateway.Prelude.{
  String, Bool, true, Option, some, List, [], ◌∷◌, map, All, ◌≡◌, refl, sym, ◌∙◌, subst, ap, arith,
  Bool-cases, Option-cases, inl, inr, str_eq, eq_iff, if◌then◌else◌,
}
use k_o11y_otel_gateway.Prelude.Results.{ok}
use k_o11y_otel_gateway.SpanMetrics.Span.{Attributes}
use k_o11y_otel_gateway.SpanMetrics.Cache.{
  SimpleLru, Cache, find_item, get, contains, remove_evicted_items,
}
use k_o11y_otel_gateway.SpanMetrics.Cache.Laws.{is_some, IsLru, visible, get-visible, add-visible}
use k_o11y_otel_gateway.SpanMetrics.Store.{
  Store, put_histogram, or_new, cache_dimensions, update_histogram, Point, collect, collect_metrics,
  keep_contained, forget_evicted, reset_accumulated, reset_exemplars,
}

module _ {H : Type 0} (simple : SimpleLru String Attributes) where
  -- The dimensions do not touch the histograms.
  pub cache_dimensions-histograms :
      (k : String) (dims : Attributes) (p : Store simple.Lru H)
      → (cache_dimensions simple k dims p).histograms ≡ p.histograms
  unfolding cache_dimensions
  cache_dimensions-histograms k dims p = elim (Option-cases (get str_eq simple k p.dimensions).0) [
    | inl missed ↦ ground (arith, missed)
    | inr (v, hit) ↦ ground (arith, hit)
  ]

module _ {H : Type 0} (Good : H → Type 0) (simple : SimpleLru String Attributes)
    (peek : simple.Lru → String → Option Attributes) where
  open simple use {Lru}

  abbrev pub has_dimensions : Cache Lru String Attributes → String → Bool
  has_dimensions c k = is_some (visible str_eq simple peek c k)

  -- Every histogram is good, and its dimensions can be got from the cache.
  abbrev pub AreSound : Cache Lru String Attributes → List (String × H) → Type 0
  AreSound c hs = All (λ (k, h). (has_dimensions c k ≡ true) × Good h) hs

  abbrev pub IsSound : Store Lru H → Type 0
  IsSound p = AreSound p.dimensions p.histograms

  AreSound-mono :
      (c d : Cache Lru String Attributes)
      → ((j : String) → has_dimensions c j ≡ true → has_dimensions d j ≡ true)
      → (hs : List (String × H)) → AreSound c hs
      → AreSound d hs
  AreSound-mono c d m [] s = tt
  AreSound-mono c d m ((k, h) ∷ hs) ((t, g), s) = ((m k t, g), AreSound-mono c d m hs s)

  find_item-Good :
      (c : Cache Lru String Attributes) (k : String) (fresh : H) (hs : List (String × H))
      → Good fresh
      → AreSound c hs
      → Good (or_new fresh (find_item str_eq k hs))
  unfolding find_item
  find_item-Good c k fresh [] f s = f
  find_item-Good c k fresh ((j, h) ∷ hs) f ((t, g), s) = elim (Bool-cases (str_eq j k)) [
    | inl y ↦
        subst (λ b. Good (or_new fresh (if b then some h else find_item str_eq k hs))) (sym y) g
    | inr n ↦
        subst (λ b. Good (or_new fresh (if b then some h else find_item str_eq k hs))) (sym n)
          (find_item-Good c k fresh hs f s)
  ]

  put_histogram-AreSound :
      (c : Cache Lru String Attributes) (k : String) (h : H) (hs : List (String × H))
      → has_dimensions c k ≡ true
      → Good h
      → AreSound c hs
      → AreSound c (put_histogram k h hs)
  unfolding put_histogram
  put_histogram-AreSound c k h [] t g s = ((t, g), tt)
  put_histogram-AreSound c k h ((j, i) ∷ hs) t g (a, s) = elim (Bool-cases (str_eq j k)) [
    | inl y ↦
        subst (λ b. AreSound c (if b then (k, h) ∷ hs else (j, i) ∷ put_histogram k h hs)) (sym y)
          ((t, g), s)
    | inr n ↦
        subst (λ b. AreSound c (if b then (k, h) ∷ hs else (j, i) ∷ put_histogram k h hs)) (sym n)
          (a, put_histogram-AreSound c k h hs t g s)
  ]

  module _ (laws : IsLru str_eq simple peek) where
    get-has :
        (k j : String) (c : Cache Lru String Attributes)
        → has_dimensions (get str_eq simple k c).1 j ≡ has_dimensions c j
    get-has k j c = ap is_some (get-visible str_eq simple peek laws k j c).1

    -- What the cache holds afterwards: the key, and what it held.
    cache_dimensions-has :
        (k j : String) (dims : Attributes) (p : Store Lru H)
        → has_dimensions (cache_dimensions simple k dims p).dimensions j
          ≡ (if str_eq k j then true else has_dimensions p.dimensions j)
    unfolding cache_dimensions
    cache_dimensions-has k j dims p = elim (Option-cases (get str_eq simple k p.dimensions).0) [
      | inl missed ↦ ground (
        arith,
        missed,
        add-visible str_eq simple peek laws k j dims (get str_eq simple k p.dimensions).1,
        get-visible str_eq simple peek laws k j p.dimensions,
      )
      | inr (v, hit) ↦ elim (Bool-cases (str_eq k j)) [
        | inl here ↦
            let held : has_dimensions p.dimensions k ≡ true =
              ap is_some (sym (get-visible str_eq simple peek laws k k p.dimensions).0 ∙ hit) in
            ground (
              arith,
              here,
              hit,
              ap (λ i. has_dimensions p.dimensions i) ((eq_iff k j).0 here),
              held,
              get-visible str_eq simple peek laws k j p.dimensions,
            )
        | inr there ↦
            ground (arith, there, hit, get-visible str_eq simple peek laws k j p.dimensions)
      ]
    ]

    cache_dimensions-IsSound :
        (k : String) (dims : Attributes) (p : Store Lru H)
        → IsSound p
        → IsSound (cache_dimensions simple k dims p)
    cache_dimensions-IsSound k dims p s =
        let after : Cache Lru String Attributes = (cache_dimensions simple k dims p).dimensions in
        subst (λ hs. AreSound after hs) (sym (cache_dimensions-histograms simple k dims p))
          (AreSound-mono p.dimensions after
            (λ j t. ground (arith, t, cache_dimensions-has k j dims p)) p.histograms s)

    -- The dimensions of a key and the update of its histogram, on a sound store.
    pub update_histogram-IsSound :
        (fresh : H) (update : H → Option H) (k : String) (dims : Attributes) (p : Store Lru H)
        → Good fresh
        → ((h : H) → Good h → (i : H) × (update h ≡ some i) × Good i)
        → IsSound p
        → (q : Store Lru H) × (update_histogram simple fresh update k
              (cache_dimensions simple k dims p)
            ≡ some q)
          × IsSound q
    unfolding update_histogram
    update_histogram-IsSound fresh update k dims p f u s =
        let c : Store Lru H = cache_dimensions simple k dims p in
        let t : IsSound c = cache_dimensions-IsSound k dims p s in
        let (h, done, good) =
          u (or_new fresh (find_item str_eq k c.histograms))
            (find_item-Good c.dimensions k fresh c.histograms f t) in
        let there : has_dimensions c.dimensions k ≡ true =
          ground (arith, cache_dimensions-has k k dims p, eq_iff k k) in
        (
          record c { histograms = put_histogram k h c.histograms },
          ground (arith, done),
          put_histogram-AreSound c.dimensions k h c.histograms there good t,
        )

    collect-AreSound :
        (hs : List (String × H)) (c : Cache Lru String Attributes)
        → AreSound c hs
        → (ps : List (Point H)) × ((collect simple hs c).0 ≡ ok ps)
          × ((j : String) → has_dimensions (collect simple hs c).1 j ≡ has_dimensions c j)
    unfolding collect
    collect-AreSound [] c s = ([], refl, λ j. refl)
    collect-AreSound ((k, h) ∷ hs) c ((t, g), s) =
        let looked : Cache Lru String Attributes = (get str_eq simple k c).1 in
        let (ps, done, same) =
          collect-AreSound hs looked (AreSound-mono c looked (λ j e. get-has k j c ∙ e) hs s) in
        elim (Option-cases (get str_eq simple k c).0) [
          | inl missed ↦
              absurd (ground (arith, missed, t, get-visible str_eq simple peek laws k k c))
          | inr (dims, hit) ↦ (
            (k, h, dims) ∷ ps,
            ground (arith, hit, done),
            λ j. ground (arith, hit, done, same j, get-has k j c),
          )
        ]

    -- The data points of a sound store are collected without an error, and it stays sound.
    pub collect_metrics-IsSound :
        (p : Store Lru H)
        → IsSound p
        → (ps : List (Point H)) × ((collect_metrics simple p).0 ≡ ok ps)
          × IsSound (collect_metrics simple p).1
    unfolding collect_metrics
    collect_metrics-IsSound p s =
        let (ps, done, same) = collect-AreSound p.histograms p.dimensions s in
        (
          ps,
          done,
          AreSound-mono p.dimensions (collect simple p.histograms p.dimensions).1
              (λ j e. same j ∙ e) p.histograms s,
        )

    keep_contained-AreSound :
        (c d : Cache Lru String Attributes) (hs : List (String × H))
        → ((j : String) → contains str_eq simple j d ≡ true → has_dimensions d j ≡ true)
        → AreSound c hs
        → AreSound d (keep_contained simple d hs)
    unfolding keep_contained
    keep_contained-AreSound c d [] m s = tt
    keep_contained-AreSound c d ((k, h) ∷ hs) m ((t, g), s) =
        let rest = keep_contained-AreSound c d hs m s in
        elim (Bool-cases (contains str_eq simple k d)) [
          | inl y ↦
              subst
                (λ b.
                  AreSound d
                    (if b then (k, h) ∷ keep_contained simple d hs else keep_contained simple d hs))
                (sym y) ((m k y, g), rest)
          | inr n ↦
              subst
                (λ b.
                  AreSound d
                    (if b then (k, h) ∷ keep_contained simple d hs else keep_contained simple d hs))
                (sym n) rest
        ]

    -- What is left when the evicted dimensions are forgotten is sound.
    pub forget_evicted-IsSound : (p : Store Lru H) → IsSound p → IsSound (forget_evicted simple p)
    unfolding forget_evicted remove_evicted_items contains visible find_item
    forget_evicted-IsSound p s =
        let d : Cache Lru String Attributes = record p.dimensions { evicted_items = [] } in
        keep_contained-AreSound p.dimensions d p.histograms
          (λ j y. ground (arith, y, laws.contains_iff j p.dimensions.lru)) s

  pub reset_accumulated-IsSound : (p : Store Lru H) → IsSound (reset_accumulated simple p)
  unfolding reset_accumulated
  reset_accumulated-IsSound p = tt

  map-AreSound :
      (drop : H → H)
      → ((h : H) → Good h → Good (drop h))
      → (c : Cache Lru String Attributes) → (hs : List (String × H)) → AreSound c hs
      → AreSound c (map (λ (k, h). (k, drop h)) hs)
  map-AreSound drop keeps c [] s = tt
  map-AreSound drop keeps c ((k, h) ∷ hs) ((t, g), s) =
      ((t, keeps h g), map-AreSound drop keeps c hs s)

  pub reset_exemplars-IsSound :
      (drop : H → H)
      → ((h : H) → Good h → Good (drop h))
      → (p : Store Lru H) → IsSound p
      → IsSound (reset_exemplars simple drop p)
  unfolding reset_exemplars
  reset_exemplars-IsSound drop keeps p s = map-AreSound drop keeps p.dimensions p.histograms s
