-- ===== src/SpanMetrics/Cache.antt =====
-- The cache of processor/signozspanmetricsprocessor/internal/cache/cache.go: an LRU cache with the
-- items that it evicted. `simplelru` of hashicorp/golang-lru is a parameter.
pub mod Laws
use k_o11y_otel_gateway.Prelude.{
  ℕ, Bool, true, false, Option, none, some, List, [], ◌∷◌, if◌then◌else◌,
}
use k_o11y_otel_gateway.Prelude.Int.{ℤ}
use k_o11y_otel_gateway.Prelude.Results.{Result, ok, err}

-- The LRU cache. `lru_add` and `lru_purge` also give the items that the eviction callback is called
-- with.
pub record SimpleLru (K V : Type 0) : Type 1 where
  pub Lru : Type 0
  pub new_lru : ℤ → Result Lru
  pub lru_add : K → V → Lru → Option (K × V) × Lru
  pub lru_get : K → Lru → Option V × Lru
  pub lru_contains : K → Lru → Bool
  pub lru_len : Lru → ℕ
  pub lru_purge : Lru → List (K × V) × Lru

module _ {K V : Type 0} (same : K → K → Bool) where
  -- The map of evicted items: a write hides an older one under its key.
  unfoldable pub find_item : K → List (K × V) → Option V
  find_item k [] = none
  find_item k ((j, v) ∷ items) = if same j k then some v else find_item k items

  unfoldable pub delete_item : K → List (K × V) → List (K × V)
  delete_item k [] = []
  delete_item k ((j, v) ∷ items) =
      let rest = delete_item k items in if same j k then rest else (j, v) ∷ rest

pub record Cache (L K V : Type 0) : Type 0 where
  pub lru : L
  pub evicted_items : List (K × V)

module _ {K V : Type 0} (same : K → K → Bool) (simple : SimpleLru K V) where
  open simple use {Lru, new_lru, lru_add, lru_get, lru_contains, lru_len, lru_purge}

  unfoldable pub new_cache : ℤ → Result (Cache Lru K V)
  new_cache size = elim (new_lru size) [
    | err e ↦ err e
    | ok l ↦ ok (record { lru = l; evicted_items = [] })
  ]

  unfoldable pub remove_evicted_items : Cache Lru K V → Cache Lru K V
  remove_evicted_items c = record c { evicted_items = [] }

  -- The callback, for what one call evicts.
  abbrev pub on_evict : Option (K × V) → List (K × V) → List (K × V)
  on_evict none items = items
  on_evict (some (k, v)) items = (k, v) ∷ items

  abbrev pub is_evicted : Option (K × V) → Bool
  is_evicted none = false
  is_evicted (some _) = true

  unfoldable pub add : K → V → Cache Lru K V → Bool × Cache Lru K V
  add k v c =
      let (evicted, l) = lru_add k v c.lru in
      (is_evicted evicted, record { lru = l; evicted_items = on_evict evicted c.evicted_items })

  -- An evicted item comes back into the LRU cache.
  unfoldable pub get : K → Cache Lru K V → Option V × Cache Lru K V
  get k c =
      let (hit, l) = lru_get k c.lru in
      let looked : Cache Lru K V = record c { lru = l } in
      elim hit [
        | some v ↦ (some v, looked)
        | none ↦ elim (find_item same k c.evicted_items) [
          | none ↦ (none, looked)
          | some v ↦ (
            some v,
            (add k v (record looked { evicted_items = delete_item same k c.evicted_items })).1,
          )
        ]
      ]

  unfoldable pub contains : K → Cache Lru K V → Bool
  contains k c = lru_contains k c.lru

  unfoldable pub cache_len : Cache Lru K V → ℕ
  cache_len c = lru_len c.lru

  unfoldable pub purge : Cache Lru K V → Cache Lru K V
  purge c = remove_evicted_items (record c { lru = (lru_purge c.lru).1 })
