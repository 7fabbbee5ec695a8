-- ===== src/SpanMetrics/Tests.antt =====
-- Runs of the cache over an LRU cache of one item.
mod Runs
use k_o11y_otel_gateway.Prelude.{
  ℕ, Bool, false, Option, none, some, List, [], ◌∷◌, ◌≡◌, ◌≢◌, refl, arith, if◌then◌else◌, ◌==◌,
  ==_iff,
}
use k_o11y_otel_gateway.Prelude.Results.{ok}
use k_o11y_otel_gateway.SpanMetrics.Cache.{SimpleLru, Cache}
use k_o11y_otel_gateway.SpanMetrics.Cache.Laws.{
  is_some, IsLru, Op, put, fetch, promised, visible, run, run-promised,
}

abbrev Slot : Type 0
Slot = Option (ℕ × ℕ)

abbrev same : ℕ → ℕ → Bool
same a b = a == b

abbrev peek : Slot → ℕ → Option ℕ
peek none k = none
peek (some (j, v)) k = if same j k then some v else none

abbrev replaced : ℕ → Slot → Slot
replaced k none = none
replaced k (some (j, v)) = if same j k then none else some (j, v)

abbrev single : SimpleLru ℕ ℕ
single = record {
  Lru = Slot;
  new_lru = λ size. ok none;
  lru_add = λ k v l. (replaced k l, some (k, v));
  lru_get = λ k l. (peek l k, l);
  lru_contains = λ k l. is_some (peek l k);
  lru_len = λ l. 1;
  lru_purge = λ l. ([], none);
}

keeps_others_lem :
    (k j i v w : ℕ) (l : Slot)
    → j ≢ k
    → replaced k l ≡ some (i, w)
    → peek (some (k, v)) j ≡ (if same i j then none else peek l j)
keeps_others_lem k j i v w none ne e = ground (arith, e)
keeps_others_lem k j i v w (some (n, u)) ne e = ground (arith, ne, e)

keeps_all_lem :
    (k j v : ℕ) (l : Slot) → j ≢ k → replaced k l ≡ none → peek (some (k, v)) j ≡ peek l j
keeps_all_lem k j v none ne e = ground (arith, ne)
keeps_all_lem k j v (some (n, u)) ne e = ground (arith, ne, e)

evicts_lem : (k i w : ℕ) (l : Slot) → replaced k l ≡ some (i, w) → peek l i ≡ some w
evicts_lem k i w none e = ground (arith, e)
evicts_lem k i w (some (n, u)) e = ground (arith, e)

single-IsLru : IsLru same single peek
single-IsLru = record {
  same_iff = λ j k. ==_iff j k;
  gets = λ k l. refl;
  contains_iff = λ k l. refl;
  get_keeps = λ k j l. refl;
  adds = λ k v l. ground arith;
  keeps_all = λ k j v l. keeps_all_lem k j v l;
  keeps_others = λ k j i v w l. keeps_others_lem k j i v w l;
  evicts = λ k i v w l. evicts_lem k i w l;
}

abbrev ops : List (Op ℕ ℕ)
ops = put 1 10 ∷ put 2 20 ∷ fetch 1 ∷ put 3 30 ∷ fetch 2 ∷ fetch 1 ∷ []

abbrev empty : Cache Slot ℕ ℕ
empty = record { lru = none; evicted_items = [] }

run-promised_example :
    run same single peek single-IsLru ops empty ≡ promised same ops (visible same single peek empty)
run-promised_example = run-promised same single peek single-IsLru ops empty
