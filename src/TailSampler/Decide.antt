-- ===== src/TailSampler/Decide.antt =====
-- How a trace is decided, processor/signoztailsampler/processor.go (policy, policyMetrics,
-- makeDecision), over any policies. `none` is a panic. Metrics and logs are left out, but for the
-- counts of `policyMetrics`.
pub mod Laws
use k_o11y_otel_gateway.Prelude.{
  ℕ, ◌+◌, ◌/◌, String, Bool, ◌||◌, Option, none, some, List, [], ◌∷◌, length, set, ltb,
  if◌then◌else◌,
}
use k_o11y_otel_gateway.Prelude.Int.{ℤ, pos}
use k_o11y_otel_gateway.Sampling.Trace.{
  TraceData, Decision, PolicyEvaluator, sampled, not_sampled, no_result, is_sampled, is_not_sampled,
  is_no_result,
}

pub record Policy (E : Type 0) : Type 0 where
  pub name : String
  pub evaluator : E

pub record PolicyMetrics : Type 0 where
  pub id_not_found_on_map_count : ℕ
  pub evaluate_error_count : ℕ
  pub decision_sampled : ℕ
  pub decision_not_sampled : ℕ

-- What `makeDecision` leaves: its results, the trace, the policies and the counts.
pub record Decided (E : Type 0) : Type 0 where
  pub final_decision : Decision
  pub matching_policy : String
  pub trace : TraceData
  pub policies : List (Policy E)
  pub metrics : PolicyMetrics

abbrev pub no_metrics : PolicyMetrics
no_metrics = record {
  id_not_found_on_map_count = 0;
  evaluate_error_count = 0;
  decision_sampled = 0;
  decision_not_sampled = 0;
}

abbrev pub decisive : Decision → Bool
decisive d = is_sampled d || is_not_sampled d

abbrev pub count_error : Option String → PolicyMetrics → PolicyMetrics
count_error none m = m
count_error (some _) m = record m { evaluate_error_count = m.evaluate_error_count + 1 }

abbrev pub count_decision : Decision → PolicyMetrics → PolicyMetrics
count_decision sampled m = record m { decision_sampled = m.decision_sampled + 1 }
count_decision not_sampled m = record m { decision_not_sampled = m.decision_not_sampled + 1 }
count_decision _ m = m

-- `time.Now().Unix()` of a time in nanoseconds.
abbrev pub unix_second : ℕ → ℤ
unix_second now = pos (now / 1_000_000_000)

module _ {E : Type 0} where
  -- Put back a policy that the loop has passed.
  abbrev pub behind : Policy E → Option (Decided E) → Option (Decided E)
  behind p none = none
  behind p (some d) = some (record d { policies = p ∷ d.policies })

  -- With no result the trace is sampled, by the policy "always_sample".
  abbrev pub settle : Decided E → Decided E
  settle d =
      if is_no_result d.final_decision
      then record d {
        final_decision = sampled;
        matching_policy = "always_sample";
        metrics = count_decision sampled d.metrics;
      }
      else record d { metrics = count_decision d.final_decision d.metrics }

module _ {E : Type 0} ⦃pe : PolicyEvaluator E⦄ (now : ℕ) (id : ℕ) where
  -- The loop over the policies from index `i`; writing past the end of `Decisions` panics.
  unfoldable pub decision_loop :
      ℕ → TraceData → PolicyMetrics → List (Policy E) → Option (Decided E)
  decision_loop i trace m [] = some (record {
    final_decision = no_result;
    matching_policy = "";
    trace = trace;
    policies = [];
    metrics = m;
  })
  decision_loop i trace m (p ∷ ps) =
      let ((decision, err), evaluator) = pe.evaluate (unix_second now) id trace p.evaluator in
      let p' = record p { evaluator = evaluator } in
      let trace' = record trace { decisions = set trace.decisions i decision } in
      let m' = count_error err m in
      let rest = decision_loop (i + 1) trace' m' ps in
      if ltb i (length trace.decisions)
      then if decisive decision
        then some (record {
          final_decision = decision;
          matching_policy = p.name;
          trace = trace';
          policies = p' ∷ ps;
          metrics = m';
        })
        else behind p' rest
      else none

  unfoldable pub make_decision : TraceData → PolicyMetrics → List (Policy E) → Option (Decided E)
  make_decision trace m policies = elim (decision_loop 0 trace m policies) [
    | none ↦ none
    | some d ↦ some (settle d)
  ]
