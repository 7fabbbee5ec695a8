-- ===== src/TailSampler/Bounds.antt =====
-- The memory bound of the tail sampler: what the processor holds, across the calls of
-- processor/signoztailsampler/processor.go that take spans in and that decide traces.
pub mod Intake
use k_o11y_otel_gateway.Prelude.{
  ℕ, ◌+◌, ◌%◌, ◌^◌, ◌≤◌, ◌<◌, false, Option, some, List, [], ◌∷◌, ◌++◌, ◌≡◌, refl, sym, ◌∙◌, ap,
  length, length-append, length-replicate, arith, Bool-cases, Option-cases, inl, inr, ltb, ltb→lt,
}
use k_o11y_otel_gateway.Prelude.Int.{add64}
use k_o11y_otel_gateway.Sampling.Trace.{Span, ResourceSpans, Traces, TraceData, pending}
use k_o11y_otel_gateway.TailSampler.Batcher.Running.{add_to_current_batch-running}
use k_o11y_otel_gateway.TailSampler.Table.{load, store, modify, keys}
use k_o11y_otel_gateway.TailSampler.Table.Laws.{
  keys-modify, keys-store, delete-oldest, Entries, Entries-modify, Entries-store, Entries-delete,
  Entries-load,
}
use k_o11y_otel_gateway.TailSampler.Group.{append_to_traces, group_spans_by_trace_key}
use k_o11y_otel_gateway.TailSampler.Decide.{Policy}
use k_o11y_otel_gateway.TailSampler.State.{Processor}
use k_o11y_otel_gateway.TailSampler.Intake.{
  drop_trace, post_deletion, new_trace, deliver, admit_trace, process_group, process_groups,
  process_traces, consume_traces, span_total,
}

module _ {E : Type 0} where
  -- A trace has one decision for each policy.
  abbrev pub IsJudged : List (Policy E) → TraceData → Type 0
  IsJudged ps trace = length trace.decisions ≡ length ps

  pub Entries-IsJudged :
      (ps qs : List (Policy E)) (t : List (ℕ × TraceData))
      → length qs ≡ length ps
      → Entries (IsJudged ps) t
      → Entries (IsJudged qs) t
  Entries-IsJudged ps qs [] e h = h
  Entries-IsJudged ps qs (x ∷ t) e h = (h.0 ∙ sym e, Entries-IsJudged ps qs t e h.1)

  -- Between two calls: the deletion channel holds the ids of the map, oldest first; the counter
  -- counts them; and there are at most `maxNumTraces`.
  pub record IsBounded (tsp : Processor E) : Type 0 where
    pub tracked : keys tsp.id_to_trace ≡ tsp.delete_chan
    pub counted : tsp.num_traces_on_map ≡ length tsp.delete_chan
    pub bounded : length tsp.delete_chan ≤ tsp.max_num_traces
    pub judged : Entries (IsJudged tsp.policies) tsp.id_to_trace
    pub running : tsp.decision_batcher.stopped ≡ false

  -- The limit on traces is a positive uint64.
  abbrev pub HasRoom : Processor E → Type 0
  HasRoom tsp = (0 < tsp.max_num_traces) × (tsp.max_num_traces < 2 ^ 64)

  -- The limit, the number of policies and the length of the pipe stay.
  pub record SameSetup (tsp tsp' : Processor E) : Type 0 where
    pub same_max : tsp'.max_num_traces ≡ tsp.max_num_traces
    pub same_policies : length tsp'.policies ≡ length tsp.policies
    pub same_pipe : length tsp'.decision_batcher.batches ≡ length tsp.decision_batcher.batches

  pub SameSetup-trans : {a b c : Processor E} → SameSetup a b → SameSetup b c → SameSetup a c
  SameSetup-trans h k = record {
    same_max = k.same_max ∙ h.same_max;
    same_policies = k.same_policies ∙ h.same_policies;
    same_pipe = k.same_pipe ∙ h.same_pipe;
  }

  -- While an id is being posted: the map has it last, and the channel has not.
  pub record IsPosting (id : ℕ) (queue : List ℕ) (tsp : Processor E) : Type 0 where
    pub tracked : keys tsp.id_to_trace ≡ queue ++ id ∷ []
    pub counted : tsp.num_traces_on_map ≡ (length queue + 1) % 2 ^ 64
    pub bounded : length queue ≤ tsp.max_num_traces
    pub judged : Entries (IsJudged tsp.policies) tsp.id_to_trace
    pub running : tsp.decision_batcher.stopped ≡ false

  drop_trace-IsPosting :
      (id oldest : ℕ) (queue : List ℕ) (tsp : Processor E)
      → tsp.max_num_traces < 2 ^ 64
      → IsPosting id (oldest ∷ queue) tsp
      → IsPosting id queue (drop_trace oldest tsp) × SameSetup tsp (drop_trace oldest tsp)
  unfolding drop_trace
  drop_trace-IsPosting id oldest queue tsp small h =
      let (v, found, rest) = delete-oldest oldest (queue ++ id ∷ []) tsp.id_to_trace h.tracked in
      rw (found, drop_trace)
        (
          record {
            tracked = rest;
            counted = rw h.counted (omega (arith, h.bounded));
            bounded = omega (arith, h.bounded);
            judged = Entries-delete (IsJudged tsp.policies) oldest tsp.id_to_trace h.judged;
            running = h.running;
          },
          record { same_max = refl; same_policies = refl; same_pipe = refl },
        )

  pub post_deletion-IsBounded :
      (id : ℕ) (queue : List ℕ) (tsp : Processor E)
      → HasRoom tsp
      → IsPosting id queue tsp
      → (tsp' : Processor E) × (post_deletion id queue tsp ≡ some tsp')
        × IsBounded tsp'
        × SameSetup tsp tsp'
  unfolding post_deletion
  post_deletion-IsBounded id [] tsp room h = (
    record tsp { delete_chan = id ∷ [] },
    ground arith,
    record {
      tracked = h.tracked;
      counted = h.counted;
      bounded = room.0;
      judged = h.judged;
      running = h.running;
    },
    record { same_max = refl; same_policies = refl; same_pipe = refl },
  )
  post_deletion-IsBounded id (oldest ∷ queue) tsp room h =
      elim (Bool-cases (ltb (length (oldest ∷ queue)) tsp.max_num_traces)) [
        | inl fits ↦ (
          record tsp { delete_chan = (oldest ∷ queue) ++ id ∷ [] },
          rw fits,
          record {
            tracked = h.tracked;
            counted =
                omega (arith, h.counted, room.1, length-append queue (id ∷ []), ltb→lt _ _ fits);
            bounded = omega (arith, length-append queue (id ∷ []), ltb→lt _ _ fits);
            judged = h.judged;
            running = h.running;
          },
          record { same_max = refl; same_policies = refl; same_pipe = refl },
        )
        | inr full ↦
            let (posting, same) = drop_trace-IsPosting id oldest queue tsp room.1 h in
            let (tsp', done, valid, same') =
              post_deletion-IsBounded id queue (drop_trace oldest tsp)
                (rw same.same_max room.0, rw same.same_max room.1) posting in
            (tsp', rw full done, valid, SameSetup-trans same same')
      ]

  pub HasRoom-same : {tsp tsp' : Processor E} → SameSetup tsp tsp' → HasRoom tsp → HasRoom tsp'
  HasRoom-same same room = (rw same.same_max room.0, rw same.same_max room.1)
