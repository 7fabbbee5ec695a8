-- ===== src/TailSampler/Table/Laws.antt =====
-- How the operations on the table of traces change its keys and its entries.
use k_o11y_otel_gateway.Prelude.{
  ℕ, suc, length, none, some, List, [], ◌∷◌, ◌++◌, ◌≡◌, refl, ap, All, arith, ◌==◌, if◌then◌else◌,
}
use k_o11y_otel_gateway.TailSampler.Table.{load, store, modify, delete, keys}

module _ {V : Type 0} where
  pub keys-modify : (id : ℕ) (v : V) (t : List (ℕ × V)) → keys (modify id v t) ≡ keys t
  unfolding modify
  keys-modify id v [] = refl
  keys-modify id v ((k, w) ∷ rest) = ground (arith, keys-modify id v rest)

  pub length-keys : (t : List (ℕ × V)) → length (keys t) ≡ length t
  length-keys [] = refl
  length-keys ((k, v) ∷ t) = ap suc (length-keys t)

  keys-append : (t u : List (ℕ × V)) → keys (t ++ u) ≡ keys t ++ keys u
  keys-append [] u = refl
  keys-append ((k, w) ∷ t) u = ap (◌∷◌ k) (keys-append t u)

  pub keys-store : (id : ℕ) (v : V) (t : List (ℕ × V)) → keys (store id v t) ≡ keys t ++ id ∷ []
  unfolding store
  keys-store id v t = keys-append t ((id, v) ∷ [])

  -- Deleting the oldest key.
  pub delete-oldest :
      (id : ℕ) (q : List ℕ) (t : List (ℕ × V))
      → keys t ≡ id ∷ q
      → (v : V) × (load id t ≡ some v) × (keys (delete id t) ≡ q)
  unfolding load delete
  delete-oldest id q [] h = absurd (cc)
  delete-oldest id q ((k, w) ∷ rest) h = (w, ground arith, ground arith)

  -- A write is read back at its key, if the map has the key, and changes no other.
  pub load-modify :
      (id j : ℕ) (v : V) (t : List (ℕ × V))
      → load j (modify id v t)
        ≡ (if id == j then (elim (load j t) [ none ↦ none | some w ↦ some v ]) else load j t)
  unfolding load modify
  load-modify id j v [] = ground arith
  load-modify id j v ((k, w) ∷ rest) = ground (arith, load-modify id j v rest)

  module _ (P : V → Type 0) where
    abbrev pub Entries : List (ℕ × V) → Type 0
    Entries t = All (λ e. P e.1) t

    pub Entries-modify :
        (id : ℕ) (v : V) (t : List (ℕ × V)) → P v → Entries t → Entries (modify id v t)
    unfolding modify
    Entries-modify id v [] p h = h
    Entries-modify id v ((k, w) ∷ rest) p h = ground (arith, Entries-modify id v rest p h.1)

    pub Entries-store :
        (id : ℕ) (v : V) (t : List (ℕ × V)) → P v → Entries t → Entries (store id v t)
    unfolding store
    Entries-store id v [] p h = (p, tt)
    Entries-store id v (e ∷ t) p h = (h.0, Entries-store id v t p h.1)

    pub Entries-delete : (id : ℕ) (t : List (ℕ × V)) → Entries t → Entries (delete id t)
    unfolding delete
    Entries-delete id [] h = h
    Entries-delete id ((k, w) ∷ rest) h = ground (arith, Entries-delete id rest h.1)

    pub Entries-load : (id : ℕ) (t : List (ℕ × V)) (v : V) → Entries t → load id t ≡ some v → P v
    unfolding load
    Entries-load id [] v h e = absurd (cc)
    Entries-load id ((k, w) ∷ rest) v h e = ground (arith, Entries-load id rest v h.1)
