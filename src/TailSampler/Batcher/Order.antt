-- ===== src/TailSampler/Batcher/Order.antt =====
-- A batcher as one queue of ids: what leaves it, against what came in.
use mathlib.Core.List.{append_assoc, append-nil}
use k_o11y_otel_gateway.Prelude.{
  ℕ, Bool, Option, none, some, List, [], ◌∷◌, ◌++◌, ◌≡◌, refl, sym, ap, ◌∙◌, length, ltb, arith,
  if◌then◌else◌, Bool-cases, Option-cases, inl, inr,
}
use k_o11y_otel_gateway.TailSampler.Batcher.{
  Batcher, Batch, fill, add_to_current_batch, close_current_and_take_first_batch, stop,
}

abbrev pub concat : List Batch → List ℕ
concat [] = []
concat (b ∷ bs) = b ++ concat bs

concat-append : (bs cs : List Batch) → concat (bs ++ cs) ≡ concat bs ++ concat cs
concat-append [] cs = refl
concat-append (b ∷ bs) cs = simp (concat-append bs cs, append_assoc)

-- Every id that the batcher holds, in the order in which it will leave.
unfoldable pub held : Batcher → List ℕ
held b = concat b.batches ++ (b.current_batch ++ b.pending_ids)

pub data Op : Type 0 where
  add : ℕ → Op
  receive : Op
  close : Op
  halt : Op

-- One operation: what it gives out, and the batcher after it.
abbrev pub step : Op → Batcher → Option (Batch × Batcher)
step (add id) b = elim (add_to_current_batch id b) [ none ↦ none | some b' ↦ some ([], b') ]
step receive b = some ([], fill b)
step close b = elim (close_current_and_take_first_batch b) [
  | none ↦ none
  | some ((batch, more), b') ↦ some (batch, b')
]
step halt b = elim (stop b) [ none ↦ none | some b' ↦ some ([], b') ]

-- The operations in turn: all that they give out, in order.
unfoldable pub run : List Op → Batcher → Option (List ℕ × Batcher)
run [] b = some ([], b)
run (op ∷ ops) b = elim (step op b) [
  | none ↦ none
  | some (out, b') ↦ elim (run ops b') [ none ↦ none | some (outs, b'') ↦ some (out ++ outs, b'') ]
]

abbrev pub added : List Op → List ℕ
added [] = []
added (add id ∷ ops) = id ∷ added ops
added (_ ∷ ops) = added ops

abbrev put_in : Op → List ℕ
put_in (add id) = id ∷ []
put_in _ = []

fill-held : (b : Batcher) → held (fill b) ≡ held b
unfolding held fill
fill-held b = go b.pending_ids refl
  where
    go : (ids : List ℕ) → b.pending_ids ≡ ids → held (fill b) ≡ held b
    go [] e = ground (arith, e)
    go (id ∷ ids) e =
        rw (e, fill) (ap (λ l. concat b.batches ++ l) (append_assoc b.current_batch (id ∷ []) ids))

enqueue-held :
    (id : ℕ) (b : Batcher)
    → held (record b { pending_ids = b.pending_ids ++ id ∷ [] }) ≡ held b ++ id ∷ []
unfolding held
enqueue-held id b = simp append_assoc

add-held :
    (id : ℕ) (b b' : Batcher) → add_to_current_batch id b ≡ some b' → held b' ≡ held b ++ id ∷ []
unfolding add_to_current_batch
add-held id b b' h =
    let room = if ltb (length b.pending_ids) b.channel_size then b else fill b in
    let same : held room ≡ held b = ground (arith, fill-held b) in
    let shape : b' ≡ record room { pending_ids = room.pending_ids ++ id ∷ [] } = ground arith in
    rw shape (enqueue-held id room ∙ ap (λ l. l ++ id ∷ []) same)

rotate-held :
    (first : Batch) (rest : List Batch) (b : Batcher)
    → concat (first ∷ rest) ++ (b.current_batch ++ b.pending_ids)
      ≡ first ++ held (record b { batches = rest ++ b.current_batch ∷ []; current_batch = [] })
unfolding held
rotate-held first rest b =
    simp (concat-append rest (b.current_batch ∷ []), append_assoc, append-nil)

held_cons :
    (b : Batcher) (first : Batch) (rest : List Batch)
    → b.batches ≡ first ∷ rest
    → held b ≡ concat (first ∷ rest) ++ (b.current_batch ++ b.pending_ids)
unfolding held
held_cons b first rest e = rw e

close-held :
    (b : Batcher) (out : Batch) (more : Bool) (b' : Batcher)
    → close_current_and_take_first_batch b ≡ some ((out, more), b')
    → held b ≡ out ++ held b'
unfolding close_current_and_take_first_batch
close-held b out more b' h = go b.batches refl
  where
    go : (bs : List Batch) → b.batches ≡ bs → held b ≡ out ++ held b'
    go [] e = unfold held in ground (arith, e)
    go (first ∷ rest) e = elim (Bool-cases b.stopped) [
      | inl s ↦
          unfold held in
          ground (arith, e, s, append_assoc first (concat rest) (b.current_batch ++ b.pending_ids))
      | inr r ↦ ground (arith, e, r, held_cons b first rest e, rotate-held first rest b)
    ]

stop-held : (b b' : Batcher) → stop b ≡ some b' → held b ≡ held b'
unfolding stop held
stop-held b b' h = ground (arith, append-nil {0} (b.current_batch ++ b.pending_ids))

step-held :
    (op : Op) (b : Batcher) (out : Batch) (b' : Batcher)
    → step op b ≡ some (out, b')
    → held b ++ put_in op ≡ out ++ held b'
step-held (add id) b out b' h = elim (Option-cases (add_to_current_batch id b)) [
  | inl stuck ↦ ground (arith, stuck)
  | inr (b₁, done) ↦ ground (arith, done, add-held id b b₁ done)
]
step-held receive b out b' h = ground (arith, fill-held b, append-nil {0} (held b))
step-held close b out b' h = elim (Option-cases (close_current_and_take_first_batch b)) [
  | inl stuck ↦ ground (arith, stuck)
  | inr (((batch, more), b₁), done) ↦
      ground (arith, done, close-held b batch more b₁ done, append-nil {0} (held b))
]
step-held halt b out b' h = elim (Option-cases (stop b)) [
  | inl stuck ↦ ground (arith, stuck)
  | inr (b₁, done) ↦ ground (arith, done, stop-held b b₁ done, append-nil {0} (held b))
]

added-put_in : (op : Op) (ops : List Op) → added (op ∷ ops) ≡ put_in op ++ added ops
added-put_in (add id) ops = refl
added-put_in receive ops = refl
added-put_in close ops = refl
added-put_in halt ops = refl

regroup :
    (p a o o₁ h h₁ h₂ : List ℕ)
    → h ++ p ≡ o ++ h₁
    → h₁ ++ a ≡ o₁ ++ h₂
    → h ++ (p ++ a) ≡ (o ++ o₁) ++ h₂
regroup p a o o₁ h h₁ h₂ e f =
    sym (append_assoc h p a)
    ∙ (ap (λ l. l ++ a) e
        ∙ (append_assoc o h₁ a ∙ (ap (λ l. o ++ l) f ∙ sym (append_assoc o o₁ h₂))))

-- Whatever is done to a batcher, in any order, ids leave it in the order in which they came, none
-- lost and none twice: what it held and was given is what it gave out and still holds.
pub run-held :
    (ops : List Op) (b : Batcher) (outs : List ℕ) (b' : Batcher)
    → run ops b ≡ some (outs, b')
    → held b ++ added ops ≡ outs ++ held b'
unfolding run
run-held [] b outs b' h = ground (arith, append-nil {0} (held b))
run-held (op ∷ ops) b outs b' h = elim (Option-cases (step op b)) [
  | inl stuck ↦ ground (arith, stuck)
  | inr ((out, b₁), done) ↦ elim (Option-cases (run ops b₁)) [
    | inl stuck ↦ ground (arith, done, stuck)
    | inr ((outs₁, b₂), rest) ↦ ground (
      arith,
      done,
      rest,
      added-put_in op ops,
      regroup (put_in op) (added ops) out outs₁ (held b) (held b₁) (held b₂)
          (step-held op b out b₁ done) (run-held ops b₁ outs₁ b₂ rest),
    )
  ]
]
