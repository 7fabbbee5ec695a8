-- ===== src/TailSampler/Tick/Laws.antt =====
-- What samplingPolicyOnTick of processor/signoztailsampler/processor.go does with a batch of ids.
use k_o11y_otel_gateway.Prelude.{
  ℕ, ◌+◌, ◌<◌, some, [], ◌∷◌, ◌++◌, ◌≡◌, refl, ◌∙◌, ◌⊎◌, length, arith, if◌then◌else◌, Option-cases,
  inl, inr,
}
use k_o11y_otel_gateway.Sampling.Trace.{
  TraceData, PolicyEvaluator, sampled, not_sampled, is_sampled,
}
use k_o11y_otel_gateway.TailSampler.Table.{load, modify}
use k_o11y_otel_gateway.TailSampler.Table.Laws.{keys-modify, Entries-modify, Entries-load}
use k_o11y_otel_gateway.TailSampler.Batcher.{Batch}
use k_o11y_otel_gateway.TailSampler.Batcher.Running.{close-running}
use k_o11y_otel_gateway.TailSampler.Decide.{PolicyMetrics, no_metrics}
use k_o11y_otel_gateway.TailSampler.Decide.Laws.{make_decision_total}
use k_o11y_otel_gateway.TailSampler.State.{Processor}
use k_o11y_otel_gateway.TailSampler.Tick.{tick_id, tick_batch, sampling_policy_on_tick}
use k_o11y_otel_gateway.TailSampler.Bounds.{
  IsJudged, Entries-IsJudged, IsBounded, SameSetup, SameSetup-trans,
}

module _ {E : Type 0} ⦃pe : PolicyEvaluator E⦄ (now : ℕ) where
  -- The trace before and after its decision.
  pub record IsDecided (tsp tsp' : Processor E) (before after : TraceData) : Type 0 where
    pub decisive : (after.final_decision ≡ sampled) ⊎ (after.final_decision ≡ not_sampled)
    pub stamped : after.decision_time ≡ now
    pub same_batches : after.received_batches ≡ before.received_batches
    pub same_arrival : after.arrival_time ≡ before.arrival_time
    pub same_count : after.span_count ≡ before.span_count
    pub passed_on : tsp'.forwarded ≡ (
        if is_sampled after.final_decision
        then tsp.forwarded ++ before.received_batches ∷ []
        else tsp.forwarded)

  -- An id of a batch whose trace is on the map, with a decision for each policy, is decided: the trace is
  -- sampled or it is not; exactly a sampled trace is passed on, once, with all the spans it has; and the
  -- map keeps the trace, with its spans, in the same place.
  pub tick_id-IsDecided :
      (id : ℕ) (m : PolicyMetrics) (tsp : Processor E) (trace : TraceData)
      → load id tsp.id_to_trace ≡ some trace
      → IsJudged tsp.policies trace
      → (m' : PolicyMetrics) × (tsp' : Processor E) × (after : TraceData) × (tick_id now id m tsp
          ≡ some (m', tsp'))
        × IsDecided tsp tsp' trace after
        × (tsp'.id_to_trace ≡ modify id after tsp.id_to_trace)
  unfolding tick_id
  tick_id-IsDecided id m tsp trace found judged =
      let (d, done, leaves, counted) =
        make_decision_total now id (record trace { decision_time = now }) m tsp.policies
          (omega (arith, judged)) in
      let after = record (d.trace) { final_decision = d.final_decision } in
      (
        d.metrics,
        record tsp {
          policies = d.policies;
          id_to_trace = modify id after tsp.id_to_trace;
          forwarded =
              if is_sampled d.final_decision
              then tsp.forwarded ++ d.trace.received_batches ∷ []
              else tsp.forwarded;
        },
        after,
        ground (arith, found, done),
        record {
          decisive = counted.decided;
          stamped = leaves.same_time;
          same_batches = leaves.same_batches;
          same_arrival = leaves.same_arrival;
          same_count = leaves.same_count;
          passed_on = rw leaves.same_batches;
        },
        refl,
      )

  tick_id-IsBounded :
      (id : ℕ) (m : PolicyMetrics) (tsp : Processor E)
      → IsBounded tsp
      → (m' : PolicyMetrics) × (tsp' : Processor E) × (tick_id now id m tsp ≡ some (m', tsp'))
        × IsBounded tsp'
        × SameSetup tsp tsp'
  unfolding tick_id
  tick_id-IsBounded id m tsp h = elim (Option-cases (load id tsp.id_to_trace)) [
    | inl gone ↦ (
      record m { id_not_found_on_map_count = m.id_not_found_on_map_count + 1 },
      tsp,
      ground (arith, gone),
      h,
      record { same_max = refl; same_policies = refl; same_pipe = refl },
    )
    | inr (trace, found) ↦
        let judged : IsJudged tsp.policies trace =
          Entries-load (IsJudged tsp.policies) id tsp.id_to_trace trace h.judged found in
        let (d, done, leaves, counted) =
          make_decision_total now id (record trace { decision_time = now }) m tsp.policies
            (omega (arith, judged)) in
        let after = record (d.trace) { final_decision = d.final_decision } in
        (
          d.metrics,
          record tsp {
            policies = d.policies;
            id_to_trace = modify id after tsp.id_to_trace;
            forwarded =
                if is_sampled d.final_decision
                then tsp.forwarded ++ d.trace.received_batches ∷ []
                else tsp.forwarded;
          },
          ground (arith, found, done),
          record {
            tracked = keys-modify id after tsp.id_to_trace ∙ h.tracked;
            counted = h.counted;
            bounded = h.bounded;
            judged =
                Entries-IsJudged tsp.policies d.policies (modify id after tsp.id_to_trace)
                  leaves.all_policies
                  (Entries-modify (IsJudged tsp.policies) id after tsp.id_to_trace
                    (leaves.same_length ∙ judged) h.judged);
            running = h.running;
          },
          record { same_max = refl; same_policies = leaves.all_policies; same_pipe = refl },
        )
  ]

  tick_batch-IsBounded :
      (ids : Batch) (m : PolicyMetrics) (tsp : Processor E)
      → IsBounded tsp
      → (m' : PolicyMetrics) × (tsp' : Processor E) × (tick_batch now ids m tsp ≡ some (m', tsp'))
        × IsBounded tsp'
        × SameSetup tsp tsp'
  unfolding tick_batch
  tick_batch-IsBounded [] m tsp h =
      (m, tsp, refl, h, record { same_max = refl; same_policies = refl; same_pipe = refl })
  tick_batch-IsBounded (id ∷ ids) m tsp h =
      let (m₁, tsp₁, done₁, valid₁, same₁) = tick_id-IsBounded id m tsp h in
      let (m₂, tsp₂, done₂, valid₂, same₂) = tick_batch-IsBounded ids m₁ tsp₁ valid₁ in
      (m₂, tsp₂, ground (arith, done₁, done₂), valid₂, SameSetup-trans same₁ same₂)

  -- A tick of a bounded processor with a batch in its pipe returns, and keeps the bound: no policy
  -- writes past a trace's decisions, and no trace comes or goes.
  pub sampling_policy_on_tick-IsBounded :
      (tsp : Processor E)
      → IsBounded tsp
      → 0 < length tsp.decision_batcher.batches
      → (m : PolicyMetrics) × (tsp' : Processor E) × (sampling_policy_on_tick now tsp
          ≡ some (m, tsp'))
        × IsBounded tsp'
        × SameSetup tsp tsp'
  unfolding sampling_policy_on_tick
  sampling_policy_on_tick-IsBounded tsp h pipe =
      let (batch, more, b, taken, runs, size) = close-running tsp.decision_batcher h.running pipe in
      let (m, tsp', done, valid, same) =
        tick_batch-IsBounded batch no_metrics (record tsp { decision_batcher = b })
          (record {
            tracked = h.tracked;
            counted = h.counted;
            bounded = h.bounded;
            judged = h.judged;
            running = runs;
          }) in
      (
        m,
        tsp',
        ground (arith, taken, done),
        valid,
        record {
          same_max = same.same_max;
          same_policies = same.same_policies;
          same_pipe = same.same_pipe ∙ size;
        },
      )
