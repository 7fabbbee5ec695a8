-- ===== src/TailSampler/Life.antt =====
-- Whole runs of the tail sampler: the calls of processor/signoztailsampler/processor.go and of the
-- batcher's goroutine in any order, from what newTracesProcessor builds.
use k_o11y_otel_gateway.Prelude.{
  ℕ, ◌*◌, ◌/◌, ◌^◌, ◌≤◌, ◌<◌, String, Bool, false, Option, none, some, List, [], ◌∷◌, ◌≡◌, refl,
  length, length-replicate, replicate, ap, sym, ◌∙◌, arith,
}
use k_o11y_otel_gateway.Prelude.Results.{ok}
use k_o11y_otel_gateway.Sampling.Trace.{Span, Traces, PolicyEvaluator}
use k_o11y_otel_gateway.Sampling.Attribute.{LruCache}
use k_o11y_otel_gateway.Sampling.Hash.{Percentages}
use k_o11y_otel_gateway.TailSampler.Config.{Config, validate, sort_groups, copy}
use k_o11y_otel_gateway.TailSampler.Evaluator.{RootEvaluator}
use k_o11y_otel_gateway.TailSampler.Batcher
use k_o11y_otel_gateway.TailSampler.Batcher.Running
use k_o11y_otel_gateway.TailSampler.Table.Laws.{length-keys}
use k_o11y_otel_gateway.TailSampler.State.{Processor}
use k_o11y_otel_gateway.TailSampler.Intake.{consume_traces}
use k_o11y_otel_gateway.TailSampler.Tick.{sampling_policy_on_tick}
use k_o11y_otel_gateway.TailSampler.Build.{build_policies, policy_groups, new_traces_processor}
use k_o11y_otel_gateway.TailSampler.Bounds.{IsBounded, HasRoom, HasRoom-same, SameSetup}
use k_o11y_otel_gateway.TailSampler.Bounds.Intake.{consume_traces-IsBounded}
use k_o11y_otel_gateway.TailSampler.Tick.Laws.{sampling_policy_on_tick-IsBounded}

-- What happens to a processor: spans come in, the ticker fires, the goroutine receives an id.
pub data Event : Type 0 where
  consume : ℕ → (List (ℕ × List Span) → List (ℕ × List Span)) → Traces → Event
  tick : ℕ → Event
  receive : Event

pub record IsLive {E : Type 0} (tsp : Processor E) : Type 0 where
  pub bounded : IsBounded tsp
  pub room : HasRoom tsp
  pub pipe : 0 < length tsp.decision_batcher.batches

module _ {E : Type 0} ⦃pe : PolicyEvaluator E⦄ where
  abbrev pub happen : Event → Processor E → Option (Processor E)
  happen (consume now iterate td) tsp = consume_traces iterate now td tsp
  happen (tick now) tsp = elim (sampling_policy_on_tick now tsp) [
    | none ↦ none
    | some (m, tsp') ↦ some tsp'
  ]
  happen receive tsp = some (record tsp { decision_batcher = Batcher.fill tsp.decision_batcher })

  unfoldable pub run : List Event → Processor E → Option (Processor E)
  run [] tsp = some tsp
  run (e ∷ es) tsp = elim (happen e tsp) [ none ↦ none | some tsp' ↦ run es tsp' ]

  IsLive-same :
      {tsp tsp' : Processor E} → SameSetup tsp tsp' → IsBounded tsp' → IsLive tsp → IsLive tsp'
  IsLive-same same b h = record {
    bounded = b;
    room = HasRoom-same same h.room;
    pipe = omega (arith, h.pipe, same.same_pipe);
  }

  happen-IsLive :
      (e : Event) (tsp : Processor E)
      → IsLive tsp
      → (tsp' : Processor E) × (happen e tsp ≡ some tsp') × IsLive tsp' × SameSetup tsp tsp'
  happen-IsLive (consume now iterate td) tsp h =
      let (tsp', done, valid, same) =
        consume_traces-IsBounded iterate now td tsp h.room h.bounded in
      (tsp', done, IsLive-same same valid h, same)
  happen-IsLive (tick now) tsp h =
      let (m, tsp', done, valid, same) =
        sampling_policy_on_tick-IsBounded now tsp h.bounded h.pipe in
      (tsp', ground (arith, done), IsLive-same same valid h, same)
  happen-IsLive receive tsp h =
      let (runs, pipe) = Running.fill-running tsp.decision_batcher in
      let same = λ (b : Batcher.Batcher). record tsp { decision_batcher = b } in
      (
        same (Batcher.fill tsp.decision_batcher),
        refl,
        record {
          bounded = record {
            tracked = h.bounded.tracked;
            counted = h.bounded.counted;
            bounded = h.bounded.bounded;
            judged = h.bounded.judged;
            running = runs ∙ h.bounded.running;
          };
          room = h.room;
          pipe = rw pipe h.pipe;
        },
        record { same_max = refl; same_policies = refl; same_pipe = ap length pipe },
      )

  -- From a live processor every sequence of calls, ticks and receptions returns: none of them panics
  -- or blocks for ever, and afterwards the processor is live, holds at most `maxNumTraces` traces,
  -- and its counter says how many.
  pub run-IsLive :
      (es : List Event) (tsp : Processor E)
      → IsLive tsp
      → (tsp' : Processor E) × (run es tsp ≡ some tsp')
        × IsLive tsp'
        × (length tsp'.id_to_trace ≤ tsp.max_num_traces)
        × (tsp'.num_traces_on_map ≡ length tsp'.id_to_trace)
  unfolding run
  run-IsLive [] tsp h =
      let size : length tsp.delete_chan ≡ length tsp.id_to_trace =
        ap length (sym h.bounded.tracked) ∙ length-keys tsp.id_to_trace in
      (tsp, refl, h, omega (arith, size, h.bounded.bounded), h.bounded.counted ∙ size)
  run-IsLive (e ∷ es) tsp h =
      let (tsp₁, done, live, same) = happen-IsLive e tsp h in
      let (tsp₂, rest, live₂, small, counted) = run-IsLive es tsp₁ live in
      (tsp₂, ground (arith, done, rest), live₂, omega (arith, small, same.same_max), counted)

module _ (lru : LruCache) (compile : String → Option (String → Bool)) (fl : Percentages)
    (tag_new : String → Option String) where
  -- A processor that newTracesProcessor builds, on at least one CPU, from a valid configuration that
  -- waits for a second at least and keeps at least one trace and fewer than 2^64, is live; and it has no policy, whatever the configuration
  -- lists: they are copied into a slice of length 0.
  pub new_traces_processor-no_policies :
      (num_cpu : ℕ) (cfg : Config fl.Percentage)
      → validate cfg ≡ []
      → 1_000_000_000 ≤ cfg.decision_wait
      → 0 < num_cpu
      → 0 < cfg.num_traces
      → cfg.num_traces < 2 ^ 64
      → (tsp : Processor (RootEvaluator lru)) × (new_traces_processor lru compile fl tag_new num_cpu
            cfg
          ≡ some (ok tsp))
        × (tsp.policies ≡ [])
        × IsLive tsp
  unfolding new_traces_processor build_policies policy_groups sort_groups copy Batcher.new
  new_traces_processor-no_policies num_cpu cfg valid wait cpus room small =
      let empty : Batcher.Batch = [] in
      let b : Batcher.Batcher = record {
        pending_ids = [];
        channel_size = 2 * num_cpu;
        batches = replicate (cfg.decision_wait / 1_000_000_000) [];
        current_batch = [];
        stopped = false;
      } in
      (
        record {
          max_num_traces = cfg.num_traces;
          policies = [];
          id_to_trace = [];
          decision_batcher = b;
          delete_chan = [];
          num_traces_on_map = 0;
          forwarded = [];
        },
        ground (arith, valid, wait, cpus),
        refl,
        record {
          bounded = record {
            tracked = refl;
            counted = refl;
            bounded = omega arith;
            judged = tt;
            running = refl;
          };
          room = (room, small);
          pipe = omega (arith, wait, length-replicate (cfg.decision_wait / 1_000_000_000) empty);
        },
      )
