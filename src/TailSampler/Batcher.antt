-- ===== src/TailSampler/Batcher.antt =====
-- The pipeline of batches of trace ids,
-- processor/signoztailsampler/internal/idbatcher/id_batcher.go. The two channels are queues, the
-- oldest first. A blocked channel operation is `none`, as is a panic: sending on a closed channel.
-- The goroutine that fills the current batch is the step `fill`; `stop` waits for it to drain what
-- is pending. One goroutine, the policy ticker, closes batches.
pub mod Running
pub mod Order
pub mod Delay
use k_o11y_otel_gateway.Prelude.{
  ℕ, Bool, true, false, Option, none, some, List, [], ◌∷◌, ◌++◌, length, replicate, ltb,
  if◌then◌else◌,
}
use k_o11y_otel_gateway.Prelude.Results.{Result, ok, err}

abbrev pub Batch : Type 0
Batch = List ℕ

pub record Batcher : Type 0 where
  pub pending_ids : List ℕ
  pub channel_size : ℕ
  pub batches : List Batch
  pub current_batch : Batch
  pub stopped : Bool

-- `New`. The capacity of new batches is an allocation hint and is left out.
unfoldable pub new : ℕ → ℕ → Result Batcher
new num_batches batch_channel_size =
    if ltb num_batches 1
    then err "invalid number of batches, it must be greater than zero"
    else if ltb batch_channel_size 1
    then err "invalid batch channel size, it must be greater than zero"
    else ok (record {
      pending_ids = [];
      channel_size = batch_channel_size;
      batches = replicate num_batches [];
      current_batch = [];
      stopped = false;
    })

-- The goroutine receives one id.
unfoldable pub fill : Batcher → Batcher
fill b = elim b.pending_ids [
  | [] ↦ b
  | id ∷ ids ↦ record b { pending_ids = ids; current_batch = b.current_batch ++ id ∷ [] }
]

-- A sender that finds the channel full waits until the goroutine has received an id.
unfoldable pub add_to_current_batch : ℕ → Batcher → Option Batcher
add_to_current_batch id b =
    if b.stopped
    then none
    else (let room = if ltb (length b.pending_ids) b.channel_size then b else fill b in
        some (record room { pending_ids = room.pending_ids ++ id ∷ [] }))

-- The oldest batch leaves the pipe and the current one enters it. Once stopped nothing enters, and
-- an empty pipe gives the last current batch, with false.
unfoldable pub close_current_and_take_first_batch : Batcher → Option ((Batch × Bool) × Batcher)
close_current_and_take_first_batch b = elim b.batches [
  | first ∷ rest ↦
      if b.stopped
      then some ((first, true), record b { batches = rest })
      else some
          ((first, true), record b { batches = rest ++ b.current_batch ∷ []; current_batch = [] })
  | [] ↦
      if b.stopped then some ((b.current_batch, false), record b { current_batch = [] }) else none
]

-- Closing a closed channel panics.
unfoldable pub stop : Batcher → Option Batcher
stop b =
    if b.stopped
    then none
    else some (record b {
      pending_ids = [];
      current_batch = b.current_batch ++ b.pending_ids;
      stopped = true;
    })
