-- ===== src/TailSampler/Decide/Laws.antt =====
-- What makeDecision of processor/signoztailsampler/processor.go decides.
use k_o11y_otel_gateway.Prelude.{
  ℕ, ◌+◌, ◌≤◌, String, true, some, List, [], ◌∷◌, ◌≡◌, refl, ◌⊎◌, inl, inr, length, length-set, set,
  arith, lt→ltb, if◌then◌else◌, Bool-cases, Option-cases,
}
use k_o11y_otel_gateway.Sampling.Trace.{
  TraceData, Decision, PolicyEvaluator, sampled, not_sampled, is_sampled, no_result,
}
use k_o11y_otel_gateway.TailSampler.Decide.{
  Policy, PolicyMetrics, Decided, unix_second, decisive, count_error, decision_loop, settle,
  make_decision,
}

-- What a decision leaves of the trace and of the policies.
pub record Leaves {E : Type 0} (trace : TraceData) (ps : List (Policy E)) (d : Decided E)
    : Type 0 where
  pub same_batches : d.trace.received_batches ≡ trace.received_batches
  pub same_arrival : d.trace.arrival_time ≡ trace.arrival_time
  pub same_time : d.trace.decision_time ≡ trace.decision_time
  pub same_count : d.trace.span_count ≡ trace.span_count
  pub same_length : length d.trace.decisions ≡ length trace.decisions
  pub all_policies : length d.policies ≡ length ps

-- The loop ends without a result or with a decisive one, and has counted no decision yet.
record IsLooped {E : Type 0} (trace : TraceData) (m : PolicyMetrics) (ps : List (Policy E))
    (d : Decided E) : Type 0 where
  leaves : Leaves trace ps d
  same_sampled : d.metrics.decision_sampled ≡ m.decision_sampled
  same_not_sampled : d.metrics.decision_not_sampled ≡ m.decision_not_sampled
  outcome : (d.final_decision ≡ no_result) ⊎ (decisive d.final_decision ≡ true)

-- A trace is sampled or it is not, and exactly that is counted.
pub record IsCounted {E : Type 0} (m : PolicyMetrics) (d : Decided E) : Type 0 where
  pub decided : (d.final_decision ≡ sampled) ⊎ (d.final_decision ≡ not_sampled)
  pub sampled_count :
      d.metrics.decision_sampled
      ≡ m.decision_sampled + (if is_sampled d.final_decision then 1 else 0)
  pub not_sampled_count :
      d.metrics.decision_not_sampled
      ≡ m.decision_not_sampled + (if is_sampled d.final_decision then 0 else 1)

module _ {E : Type 0} ⦃pe : PolicyEvaluator E⦄ (now : ℕ) (id : ℕ) where
  decision_loop_total :
      (i : ℕ) (trace : TraceData) (m : PolicyMetrics) (ps : List (Policy E))
      → i + length ps ≤ length trace.decisions
      → (d : Decided E) × (decision_loop now id i trace m ps ≡ some d) × IsLooped trace m ps d
  unfolding decision_loop
  decision_loop_total i trace m [] h = (
    record {
      final_decision = no_result;
      matching_policy = "";
      trace = trace;
      policies = [];
      metrics = m;
    },
    refl,
    record {
      leaves = record {
        same_batches = refl;
        same_arrival = refl;
        same_time = refl;
        same_count = refl;
        same_length = refl;
        all_policies = refl;
      };
      same_sampled = refl;
      same_not_sampled = refl;
      outcome = inl refl;
    },
  )
  decision_loop_total i trace m (p ∷ ps) h =
      let v = pe.evaluate (unix_second now) id trace p.evaluator in
      let trace' = record trace { decisions = set trace.decisions i v.0.0 } in
      let (d, done, l) =
        decision_loop_total (i + 1) trace' (count_error v.0.1 m) ps
          (omega (arith, length-set {0} trace.decisions i v.0.0)) in
      let inside = lt→ltb i (length trace.decisions) (omega (arith, h)) in
      elim (Bool-cases (decisive v.0.0)) [
        | inl decides ↦ (
          record {
            final_decision = v.0.0;
            matching_policy = p.name;
            trace = trace';
            policies = record p { evaluator = v.1 } ∷ ps;
            metrics = count_error v.0.1 m;
          },
          ground (arith, inside, decides),
          ground (arith, decides, length-set {0} trace.decisions i v.0.0),
        )
        | inr passes ↦ (
          record d { policies = record p { evaluator = v.1 } ∷ d.policies },
          ground (arith, inside, passes, done),
          ground (arith, l, length-set {0} trace.decisions i v.0.0),
        )
      ]

  -- If the trace has a decision for each policy, `makeDecision` does not panic; the final decision
  -- is to sample the trace or not to, and that one counter goes up by one; the spans and times of
  -- the trace, the number of its decisions and the number of policies stay.
  pub make_decision_total :
      (trace : TraceData) (m : PolicyMetrics) (ps : List (Policy E))
      → length ps ≤ length trace.decisions
      → (d : Decided E) × (make_decision now id trace m ps ≡ some d)
        × Leaves trace ps d
        × IsCounted m d
  unfolding make_decision
  make_decision_total trace m ps h =
      let (d, done, l) = decision_loop_total 0 trace m ps (omega (arith, h)) in
      (settle d, ground (arith, done), ground (arith, l), ground (arith, l))

  module _ (trace : TraceData) (judge : E → Decision)
      (judges : (ds : List Decision) (e : E)
        → (pe.evaluate (unix_second now) id (record trace { decisions = ds }) e).0.0
          ≡ judge e) where
    -- The decision of the first policy that samples the trace or refuses it, and its name.
    unfoldable pub first_decisive : List (Policy E) → Decision × String
    first_decisive [] = (sampled, "always_sample")
    first_decisive (p ∷ ps) =
        let rest = first_decisive ps in
        elim (judge p.evaluator) [
          | sampled ↦ (sampled, p.name)
          | not_sampled ↦ (not_sampled, p.name)
          | _ ↦ rest
        ]

    decision_loop-first :
        (i : ℕ) (ds : List Decision) (m : PolicyMetrics) (ps : List (Policy E)) (d : Decided E)
        → decision_loop now id i (record trace { decisions = ds }) m ps ≡ some d
        → ((settle d).final_decision, (settle d).matching_policy) ≡ first_decisive ps
    unfolding decision_loop first_decisive
    decision_loop-first i ds m [] d h = ground arith
    decision_loop-first i ds m (p ∷ ps) d h =
        let v = pe.evaluate (unix_second now) id (record trace { decisions = ds }) p.evaluator in
        let rest =
          decision_loop now id (i + 1) (record trace { decisions = set ds i v.0.0 })
            (count_error v.0.1 m) ps in
        elim (Option-cases rest) [
          | inl fails ↦ ground (arith, fails, judges ds p.evaluator)
          | inr (d', done) ↦ ground (
            arith,
            done,
            judges ds p.evaluator,
            decision_loop-first (i + 1) (set ds i v.0.0) (count_error v.0.1 m) ps d' done,
          )
        ]

    -- If what a policy decides does not depend on the decisions recorded so far, the first policy
    -- that samples the trace or refuses it decides, and a trace that no policy decides is sampled.
    pub make_decision-first_decisive :
        (m : PolicyMetrics) (ps : List (Policy E))
        → length ps ≤ length trace.decisions
        → (d : Decided E) × (make_decision now id trace m ps ≡ some d)
          × ((d.final_decision, d.matching_policy) ≡ first_decisive ps)
    unfolding make_decision
    make_decision-first_decisive m ps h =
        let (d, done, l) = decision_loop_total 0 trace m ps (omega (arith, h)) in
        (settle d, ground (arith, done), decision_loop-first 0 trace.decisions m ps d done)
