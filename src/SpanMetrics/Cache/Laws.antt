-- ===== src/SpanMetrics/Cache/Laws.antt =====
-- Between two removals of the evicted items the cache forgets nothing.
use k_o11y_otel_gateway.Prelude.{
  Bool, true, false, Option, none, some, List, [], ◌∷◌, ◌≡◌, ◌≢◌, ◌↔◌, inl, inr, refl, subst, sym,
  ◌∙◌, ap, arith, if◌then◌else◌, Bool-cases, Option-cases,
}
use k_o11y_otel_gateway.SpanMetrics.Cache.{SimpleLru, Cache, find_item, delete_item, add, get}

abbrev pub is_some : {V : Type 0} → Option V → Bool
is_some none = false
is_some (some v) = true

-- What the cache relies on in the LRU cache. `peek` is what it holds. Adding a key may evict one
-- other item, which the callback is told.
pub record IsLru {K V : Type 0} (same : K → K → Bool) (simple : SimpleLru K V)
    (peek : simple.Lru → K → Option V) : Type 0 where
  pub same_iff : (j k : K) → (same j k ≡ true) ↔ (j ≡ k)
  pub gets : (k : K) (l : simple.Lru) → (simple.lru_get k l).0 ≡ peek l k
  pub contains_iff : (k : K) (l : simple.Lru) → simple.lru_contains k l ≡ is_some (peek l k)
  pub get_keeps : (k j : K) (l : simple.Lru) → peek (simple.lru_get k l).1 j ≡ peek l j
  pub adds : (k : K) (v : V) (l : simple.Lru) → peek (simple.lru_add k v l).1 k ≡ some v
  pub keeps_all :
      (k j : K) (v : V) (l : simple.Lru)
      → j ≢ k
      → (simple.lru_add k v l).0 ≡ none
      → peek (simple.lru_add k v l).1 j ≡ peek l j
  pub keeps_others :
      (k j i : K) (v w : V) (l : simple.Lru)
      → j ≢ k
      → (simple.lru_add k v l).0 ≡ some (i, w)
      → peek (simple.lru_add k v l).1 j ≡ (if same i j then none else peek l j)
  pub evicts :
      (k i : K) (v w : V) (l : simple.Lru)
      → (simple.lru_add k v l).0 ≡ some (i, w)
      → peek l i ≡ some w

-- What is done to a cache between two removals of its evicted items.
pub data Op (K V : Type 0) : Type 0 where
  put : K → V → Op K V
  fetch : K → Op K V

-- What the fetches give: the last value put under the key, or what `m` has there.
unfoldable pub promised :
    {K V : Type 0} → (K → K → Bool) → List (Op K V) → (K → Option V) → List (Option V)
promised same [] m = []
promised same (put k v ∷ ops) m = promised same ops (λ j. if same k j then some v else m j)
promised same (fetch k ∷ ops) m = m k ∷ promised same ops m

module _ {K V : Type 0} (same : K → K → Bool) (simple : SimpleLru K V)
    (peek : simple.Lru → K → Option V) where
  open simple use {Lru, lru_add, lru_get}

  abbrev pub or_else : Option V → Option V → Option V
  or_else (some v) o = some v
  or_else none o = o

  -- What can be got from the cache.
  unfoldable pub visible : Cache Lru K V → K → Option V
  visible c k = or_else (peek c.lru k) (find_item same k c.evicted_items)

  module _ (laws : IsLru same simple peek) where
    distinct : (j k : K) → same k j ≡ false → j ≢ k
    distinct j k h e = absurd (ground (arith, h, (laws.same_iff k j).1 (sym e)))

    pub add-visible :
        (k j : K) (v : V) (c : Cache Lru K V)
        → visible (add same simple k v c).1 j ≡ (if same k j then some v else visible c j)
    unfolding visible add find_item
    add-visible k j v c = elim (Bool-cases (same k j)) [
      | inl here ↦
          let seen : peek (lru_add k v c.lru).1 j ≡ some v =
            subst (λ i. peek (lru_add k v c.lru).1 i ≡ some v) ((laws.same_iff k j).0 here)
              (laws.adds k v c.lru) in
          ground (arith, here, seen)
      | inr other ↦ elim (Option-cases (lru_add k v c.lru).0) [
        | inl kept ↦
            ground (arith, other, kept, laws.keeps_all k j v c.lru (distinct j k other) kept)
        | inr ((i, w), out) ↦
            let rest = laws.keeps_others k j i v w c.lru (distinct j k other) out in
            elim (Bool-cases (same i j)) [
              | inl gone ↦
                  let was : peek c.lru j ≡ some w =
                    subst (λ n. peek c.lru n ≡ some w) ((laws.same_iff i j).0 gone)
                      (laws.evicts k i v w c.lru out) in
                  ground (arith, other, out, rest, gone, was)
              | inr stays ↦ ground (arith, other, out, rest, stays)
            ]
      ]
    ]

    find-delete :
        (k j : K) (items : List (K × V))
        → find_item same j (delete_item same k items)
          ≡ (if same k j then none else find_item same j items)
    unfolding find_item delete_item
    find-delete k j [] = ground arith
    find-delete k j ((i, v) ∷ items) = elim (Bool-cases (same i k)) [
      | inl drop ↦
          ground
            (arith, drop, ap (λ n. same n j) ((laws.same_iff i k).0 drop), find-delete k j items)
      | inr keep ↦ elim (Bool-cases (same k j)) [
        | inl here ↦ ground (
          arith,
          keep,
          here,
          ap (λ n. same i n) ((laws.same_iff k j).0 here),
          find-delete k j items,
        )
        | inr there ↦ ground (arith, keep, there, find-delete k j items)
      ]
    ]

    -- An item found among the evicted ones comes back.
    revive-visible :
        (k j : K) (v : V) (c : Cache Lru K V)
        → (lru_get k c.lru).0 ≡ none
        → find_item same k c.evicted_items ≡ some v
        → visible
            (add same simple k v (record {
              lru = (lru_get k c.lru).1;
              evicted_items = delete_item same k c.evicted_items;
            })).1
            j
          ≡ visible c j
    revive-visible k j v c missed found =
        let kept : Cache Lru K V = record {
          lru = (lru_get k c.lru).1;
          evicted_items = delete_item same k c.evicted_items;
        } in
        let added = add-visible k j v kept in
        let unseen : peek c.lru k ≡ none = sym (laws.gets k c.lru) ∙ missed in
        unfold visible in
        elim (Bool-cases (same k j)) [
          | inl here ↦
              let seen : or_else (peek c.lru j) (find_item same j c.evicted_items) ≡ some v =
                subst (λ n. or_else (peek c.lru n) (find_item same n c.evicted_items) ≡ some v)
                  ((laws.same_iff k j).0 here) (ground (arith, unseen, found)) in
              ground (arith, here, added, seen)
          | inr there ↦
              ground
                (arith, there, added, laws.get_keeps k j c.lru, find-delete k j c.evicted_items)
        ]

    pub get-visible :
        (k j : K) (c : Cache Lru K V)
        → ((get same simple k c).0 ≡ visible c k)
          × (visible (get same simple k c).1 j ≡ visible c j)
    unfolding get visible
    get-visible k j c = elim (Option-cases (lru_get k c.lru).0) [
      | inr (v, hit) ↦ ground (arith, hit, laws.gets k c.lru, laws.get_keeps k j c.lru)
      | inl missed ↦ elim (Option-cases (find_item same k c.evicted_items)) [
        | inl nowhere ↦ ground (arith, missed, nowhere, laws.gets k c.lru, laws.get_keeps k j c.lru)
        | inr (v, found) ↦
            ground (arith, missed, found, laws.gets k c.lru, revive-visible k j v c missed found)
      ]
    ]

    unfoldable pub run : List (Op K V) → Cache Lru K V → List (Option V)
    run [] c = []
    run (put k v ∷ ops) c = run ops (add same simple k v c).1
    run (fetch k ∷ ops) c = (get same simple k c).0 ∷ run ops (get same simple k c).1

    run_agrees :
        (ops : List (Op K V)) (c : Cache Lru K V) (m : K → Option V)
        → ((j : K) → visible c j ≡ m j)
        → run ops c ≡ promised same ops m
    unfolding run promised
    run_agrees [] c m h = refl
    run_agrees (put k v ∷ ops) c m h =
        run_agrees ops (add same simple k v c).1 (λ j. if same k j then some v else m j)
          (λ j. add-visible k j v c ∙ ap (λ o. if same k j then some v else o) (h j))
    run_agrees (fetch k ∷ ops) c m h =
        let rest = run_agrees ops (get same simple k c).1 m (λ j. (get-visible k j c).1 ∙ h j) in
        ground (arith, rest, (get-visible k k c).0, h k)

    -- Between two removals of the evicted items the cache forgets nothing, however small it is: each
    -- fetch gives the last value put under its key, or what could be got under it at first.
    pub run-promised :
        (ops : List (Op K V)) (c : Cache Lru K V) → run ops c ≡ promised same ops (visible c)
    run-promised ops c = run_agrees ops c (visible c) (λ j. refl)
