-- ===== src/TailSampler/Batcher/Delay.antt =====
-- How long an id waits in a batcher.
use mathlib.Core.List.{append_assoc, append-nil}
use k_o11y_otel_gateway.Prelude.{
  ℕ, zero, suc, ◌<◌, false, Option, none, some, List, [], ◌∷◌, ◌++◌, ◌≡◌, refl, sym, ap, ◌∙◌,
  length, length-append, arith,
}
use k_o11y_otel_gateway.TailSampler.Batcher.{Batcher, Batch, close_current_and_take_first_batch}

-- So many closings, one after another: the batches that they give.
unfoldable pub closes : ℕ → Batcher → Option (List Batch × Batcher)
closes zero b = some ([], b)
closes (suc n) b = elim (close_current_and_take_first_batch b) [
  | none ↦ none
  | some ((batch, more), b') ↦ elim (closes n b') [
    | none ↦ none
    | some (batches, b'') ↦ some (batch ∷ batches, b'')
  ]
]

closes-front :
    (bs qs : List Batch) (b : Batcher)
    → b.stopped ≡ false
    → b.batches ≡ bs ++ qs
    → (b' : Batcher) × (closes (length bs) b ≡ some (bs, b'))
unfolding closes close_current_and_take_first_batch
closes-front [] qs b s e = (b, refl)
closes-front (first ∷ bs) qs b s e =
    let next = record b { batches = (bs ++ qs) ++ b.current_batch ∷ []; current_batch = [] } in
    let (b', done) =
      closes-front bs (qs ++ b.current_batch ∷ []) next s
        (append_assoc bs qs (b.current_batch ∷ [])) in
    (b', ground (arith, e, s, done))

closes_cons :
    (first : Batch) (rest : List Batch) (b : Batcher)
    → b.stopped ≡ false
    → b.batches ≡ first ∷ rest
    → (b' : Batcher) × (closes (suc (suc (length rest))) b
        ≡ some ((first ∷ rest) ++ b.current_batch ∷ [], b'))
unfolding closes close_current_and_take_first_batch
closes_cons first rest b s e =
    let next = record b { batches = rest ++ b.current_batch ∷ []; current_batch = [] } in
    let more = rest ++ b.current_batch ∷ [] in
    let size : length more ≡ suc (length rest) =
      omega (arith, length-append rest (b.current_batch ∷ [])) in
    let (b', done) = closes-front more [] next s (sym (append-nil more)) in
    let given : closes (suc (length rest)) next ≡ some (more, b') =
      ap (λ n. closes n next) (sym size) ∙ done in
    (b', ground (arith, e, s, given))

-- A running batcher with n > 0 batches in its pipe gives these out at the next n closings, and the
-- batch that is current now at the closing after them: ids wait for n ticks.
pub closes-current :
    (b : Batcher)
    → b.stopped ≡ false
    → 0 < length b.batches
    → (b' : Batcher) × (closes (suc (length b.batches)) b
        ≡ some (b.batches ++ b.current_batch ∷ [], b'))
closes-current b s h = go b.batches refl
  where
    go :
        (bs : List Batch)
        → b.batches ≡ bs
        → (b' : Batcher) × (closes (suc (length b.batches)) b
            ≡ some (b.batches ++ b.current_batch ∷ [], b'))
    go [] e = absurd (ground (arith, e, h))
    go (first ∷ rest) e =
        let (b', done) = closes_cons first rest b s e in
        (
          b',
          ap (λ bs. closes (suc (length bs)) b) e
              ∙ (done ∙ ap (λ bs. some (bs ++ b.current_batch ∷ [], b')) (sym e)),
        )
