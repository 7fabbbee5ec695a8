-- ===== src/TailSampler/Batcher/Running.antt =====
-- What a batcher that has not been stopped does with its pipe.
use k_o11y_otel_gateway.Prelude.{
  ℕ, ◌<◌, Bool, true, false, some, List, [], ◌∷◌, ◌++◌, ◌≡◌, refl, length, length-append, ltb,
  arith, if◌then◌else◌,
}
use k_o11y_otel_gateway.TailSampler.Batcher.{
  Batcher, Batch, fill, add_to_current_batch, close_current_and_take_first_batch,
}

-- A running batcher takes every id, and goes on running with the same batches in its pipe.
pub add_to_current_batch-running :
    (id : ℕ) (b : Batcher)
    → b.stopped ≡ false
    → (b' : Batcher) × (add_to_current_batch id b ≡ some b')
      × (b'.stopped ≡ false)
      × (b'.batches ≡ b.batches)
unfolding add_to_current_batch fill
add_to_current_batch-running id b h =
    let room = if ltb (length b.pending_ids) b.channel_size then b else fill b in
    (
      record room { pending_ids = room.pending_ids ++ id ∷ [] },
      ground arith,
      ground arith,
      ground arith,
    )

-- With a batch in its pipe a running batcher gives one out, and its pipe keeps its length.
pub close-running :
    (b : Batcher)
    → b.stopped ≡ false
    → 0 < length b.batches
    → (batch : Batch) × (more : Bool) × (b' : Batcher) × (close_current_and_take_first_batch b
        ≡ some ((batch, more), b'))
      × (b'.stopped ≡ false)
      × (length b'.batches ≡ length b.batches)
close-running b s h = go b.batches refl
  where
    go :
        (bs : List Batch)
        → b.batches ≡ bs
        → (batch : Batch) × (more : Bool) × (b' : Batcher) × (close_current_and_take_first_batch b
            ≡ some ((batch, more), b'))
          × (b'.stopped ≡ false)
          × (length b'.batches ≡ length b.batches)
    go [] e = absurd (ground (arith, e, h))
    go (first ∷ rest) e = (
      first,
      true,
      record b { batches = rest ++ b.current_batch ∷ []; current_batch = [] },
      unfold close_current_and_take_first_batch in ground (arith, e, s),
      s,
      ground (arith, e, length-append rest (b.current_batch ∷ [])),
    )

-- Receiving an id leaves the pipe alone.
pub fill-running : (b : Batcher) → ((fill b).stopped ≡ b.stopped) × ((fill b).batches ≡ b.batches)
unfolding fill
fill-running b = ground arith
