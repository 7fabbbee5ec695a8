-- ===== src/TailSampler/Table.antt =====
-- The processor's map from trace ids to trace data (`sync.Map`), the oldest entry first.
pub mod Laws
use k_o11y_otel_gateway.Prelude.{ℕ, Option, none, some, List, [], ◌∷◌, ◌++◌, ◌==◌, if◌then◌else◌}

module _ {V : Type 0} where
  unfoldable pub load : ℕ → List (ℕ × V) → Option V
  load id [] = none
  load id ((k, v) ∷ rest) = if k == id then some v else load id rest

  -- A new key goes to the end.
  unfoldable pub store : ℕ → V → List (ℕ × V) → List (ℕ × V)
  store id v t = t ++ (id, v) ∷ []

  -- A write through the pointer that the map holds: nothing, if the key is gone.
  unfoldable pub modify : ℕ → V → List (ℕ × V) → List (ℕ × V)
  modify id v [] = []
  modify id v ((k, w) ∷ rest) = if k == id then (k, v) ∷ rest else (k, w) ∷ modify id v rest

  unfoldable pub delete : ℕ → List (ℕ × V) → List (ℕ × V)
  delete id [] = []
  delete id ((k, w) ∷ rest) = if k == id then rest else (k, w) ∷ delete id rest

  abbrev pub keys : List (ℕ × V) → List ℕ
  keys [] = []
  keys ((k, v) ∷ rest) = k ∷ keys rest
