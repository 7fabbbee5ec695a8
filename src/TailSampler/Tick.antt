-- ===== src/TailSampler/Tick.antt =====
-- What the policy ticker runs, processor/signoztailsampler/processor.go (samplingPolicyOnTick), and
-- Shutdown. `none` is a panic, or a channel operation that blocks for ever.
pub mod Laws
use k_o11y_otel_gateway.Prelude.{ℕ, ◌+◌, Option, none, some, [], ◌∷◌, ◌++◌, if◌then◌else◌}
use k_o11y_otel_gateway.Sampling.Trace.{PolicyEvaluator, is_sampled}
use k_o11y_otel_gateway.TailSampler.Batcher.{Batch, close_current_and_take_first_batch, stop}
use k_o11y_otel_gateway.TailSampler.Table.{load, modify}
use k_o11y_otel_gateway.TailSampler.Decide.{PolicyMetrics, no_metrics, make_decision}
use k_o11y_otel_gateway.TailSampler.State.{Processor}

module _ {E : Type 0} ⦃pe : PolicyEvaluator E⦄ (now : ℕ) where
  -- One id of the batch.
  unfoldable pub tick_id : ℕ → PolicyMetrics → Processor E → Option (PolicyMetrics × Processor E)
  tick_id id m tsp = elim (load id tsp.id_to_trace) [
    | none ↦ some (record m { id_not_found_on_map_count = m.id_not_found_on_map_count + 1 }, tsp)
    | some trace ↦
        elim (make_decision now id (record trace { decision_time = now }) m tsp.policies) [
          | none ↦ none
          | some d ↦ some (
            d.metrics,
            record tsp {
              policies = d.policies;
              id_to_trace =
                  modify id (record (d.trace) { final_decision = d.final_decision })
                    tsp.id_to_trace;
              forwarded =
                  if is_sampled d.final_decision
                  then tsp.forwarded ++ d.trace.received_batches ∷ []
                  else tsp.forwarded;
            },
          )
        ]
  ]

  unfoldable pub tick_batch :
      Batch → PolicyMetrics → Processor E → Option (PolicyMetrics × Processor E)
  tick_batch [] m tsp = some (m, tsp)
  tick_batch (id ∷ ids) m tsp = elim (tick_id id m tsp) [
    | none ↦ none
    | some (m', tsp') ↦ tick_batch ids m' tsp'
  ]

  unfoldable pub sampling_policy_on_tick : Processor E → Option (PolicyMetrics × Processor E)
  sampling_policy_on_tick tsp = elim (close_current_and_take_first_batch tsp.decision_batcher) [
    | none ↦ none
    | some ((batch, more), b) ↦ tick_batch batch no_metrics (record tsp { decision_batcher = b })
  ]

unfoldable pub shutdown : {E : Type 0} → Processor E → Option (Processor E)
shutdown tsp = elim (stop tsp.decision_batcher) [
  | none ↦ none
  | some b ↦ some (record tsp { decision_batcher = b })
]
