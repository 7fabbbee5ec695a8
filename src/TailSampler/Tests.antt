-- ===== src/TailSampler/Tests.antt =====
-- Runs of the tail sampler on concrete traces and configurations.
mod Policies
use k_o11y_otel_gateway.Prelude.{
  ℕ, suc, ◌≤◌, Bool, true, false, none, some, List, [], ◌∷◌, ◌++◌, ◌≡◌, refl, ap, ◌*◌, ◌==◌, inl,
  arith, length,
}
use k_o11y_otel_gateway.Prelude.Int.{pos}
use k_o11y_otel_gateway.Prelude.Results.{ok}
use k_o11y_otel_gateway.Sampling.Trace.{
  str, StatusCode, Span, ResourceSpans, Decision, TraceData, PolicyEvaluator, unspecified, pending,
  sampled, no_result,
}
use k_o11y_otel_gateway.Sampling.Simple.{SpanCount, span_count_evaluate}
use k_o11y_otel_gateway.Sampling.Attribute.{LruCache, exact}
use k_o11y_otel_gateway.Sampling.Hash.{Percentages}
use k_o11y_otel_gateway.TailSampler.Config.{Config, BasePolicy, validate, without_priority}
use k_o11y_otel_gateway.TailSampler.Evaluator.{
  DefaultEvaluator, Filter, string_filter, Sampler, always, never, sampler_policy, no_policy,
  filter_policy, RootEvaluator, default_evaluate,
}
use k_o11y_otel_gateway.TailSampler.Evaluator.Laws.{default_evaluate-promised, promised}
use k_o11y_otel_gateway.TailSampler.Evaluator.Inverted.{
  drop_inverted, default_evaluate-drop_inverted, default_evaluate_all_inverted,
}
use k_o11y_otel_gateway.TailSampler.Batcher.{Batcher, Batch}
use k_o11y_otel_gateway.TailSampler.Batcher
use k_o11y_otel_gateway.TailSampler.Batcher.Order
use k_o11y_otel_gateway.TailSampler.Batcher.Delay.{closes, closes-current}
use k_o11y_otel_gateway.TailSampler.Table.{load, modify}
use k_o11y_otel_gateway.TailSampler.Decide.{
  Policy, PolicyMetrics, Decided, no_metrics, make_decision,
}
use k_o11y_otel_gateway.TailSampler.Decide.Laws.{
  Leaves, IsCounted, make_decision_total, first_decisive, make_decision-first_decisive,
}
use k_o11y_otel_gateway.TailSampler.State.{Processor}
use k_o11y_otel_gateway.TailSampler.Intake.{process_group, consume_traces}
use k_o11y_otel_gateway.TailSampler.Group.{group_spans_by_trace_key}
use k_o11y_otel_gateway.TailSampler.Group.Laws.{
  groups_of, spans_of, joined, at_most_one, group_spans_by_trace_key-spans_of,
}
use k_o11y_otel_gateway.TailSampler.Tick.{tick_id, sampling_policy_on_tick}
use k_o11y_otel_gateway.TailSampler.Tick.Laws.{
  IsDecided, tick_id-IsDecided, sampling_policy_on_tick-IsBounded,
}
use k_o11y_otel_gateway.TailSampler.Bounds.{IsBounded, HasRoom, SameSetup}
use k_o11y_otel_gateway.TailSampler.Bounds.Intake.{Keeps, consume_traces-IsBounded}
use k_o11y_otel_gateway.TailSampler.Build.{new_traces_processor}
use k_o11y_otel_gateway.TailSampler.Life.{
  Event, consume, tick, receive, IsLive, run-IsLive, new_traces_processor-no_policies,
}
use k_o11y_otel_gateway.TailSampler.Life

-- Two ids are added, received and closed, and one waits.
abbrev ops : List Order.Op
ops =
    Order.add 1
    ∷ Order.add 2
    ∷ Order.receive
    ∷ Order.receive
    ∷ Order.add 3
    ∷ Order.close
    ∷ Order.close
    ∷ []

abbrev running : Batcher
running = record {
  pending_ids = [];
  channel_size = 2;
  batches = [] ∷ [];
  current_batch = [];
  stopped = false;
}

abbrev waiting : Batcher
waiting = record running { pending_ids = 3 ∷ [] }

ran : Order.run ops running ≡ some (1 ∷ 2 ∷ [], waiting)
unfolding Order.run Batcher.add_to_current_batch Batcher.fill
    Batcher.close_current_and_take_first_batch
ran = refl

run-held_example : Order.held running ++ Order.added ops ≡ (1 ∷ 2 ∷ []) ++ Order.held waiting
run-held_example = Order.run-held ops running (1 ∷ 2 ∷ []) waiting ran

closes-current_example :
    (b' : Batcher) × (closes (suc (length running.batches)) running
      ≡ some (running.batches ++ running.current_batch ∷ [], b'))
closes-current_example = closes-current running refl (omega arith)

instance abbrev pub by_size : PolicyEvaluator SpanCount
by_size = record { evaluate = λ now id t c. (span_count_evaluate t c, c) }

abbrev at_least : ℕ → Policy SpanCount
at_least n = record { name = "size"; evaluator = record { min_spans = pos n } }

abbrev policies : List (Policy SpanCount)
policies = at_least 9 ∷ at_least 1 ∷ []

abbrev span : ℕ → Span
span id = record {
  trace_id = id;
  trace_state = "";
  start_timestamp = 5;
  end_timestamp = 6;
  attributes = ("peer", str "db") ∷ [];
  status = StatusCode.error;
}

abbrev batch : List Span → ResourceSpans
batch spans = record { resource = ("service", str "cart") ∷ []; scope_spans = spans ∷ [] }

abbrev pub trace : TraceData
trace = record {
  decisions = pending ∷ pending ∷ [];
  arrival_time = 4;
  decision_time = 0;
  span_count = pos 1;
  received_batches = batch (span 7 ∷ []) ∷ [];
  final_decision = unspecified;
}

abbrev five_seconds : ℕ
five_seconds = 5_000_000_000

make_decision_total_example :
    (d : Decided SpanCount) × (make_decision five_seconds 7 trace no_metrics policies ≡ some d)
    × Leaves trace policies d
    × IsCounted no_metrics d
make_decision_total_example =
    make_decision_total five_seconds 7 trace no_metrics policies (omega arith)

abbrev judge : SpanCount → Decision
judge c = (span_count_evaluate trace c).0

judges :
    (ds : List Decision) (e : SpanCount)
    → (by_size.evaluate (pos 5) 7 (record trace { decisions = ds }) e).0.0 ≡ judge e
unfolding span_count_evaluate
judges ds e = refl

make_decision-first_decisive_example :
    (d : Decided SpanCount) × (make_decision five_seconds 7 trace no_metrics policies ≡ some d)
    × ((d.final_decision, d.matching_policy)
        ≡ first_decisive five_seconds 7 trace judge judges policies)
make_decision-first_decisive_example =
    make_decision-first_decisive five_seconds 7 trace judge judges no_metrics policies (omega arith)

abbrev processor : Processor SpanCount
processor = record {
  max_num_traces = 1;
  policies = policies;
  id_to_trace = (7, trace) ∷ [];
  decision_batcher = record running { current_batch = 7 ∷ []; batches = (7 ∷ []) ∷ [] };
  delete_chan = 7 ∷ [];
  num_traces_on_map = 1;
  forwarded = [];
}

processor-IsBounded : IsBounded processor
processor-IsBounded = record {
  tracked = refl;
  counted = refl;
  bounded = omega arith;
  judged = (refl, tt);
  running = refl;
}

processor-HasRoom : HasRoom processor
processor-HasRoom = (omega arith, omega arith)

found : load 7 processor.id_to_trace ≡ some trace
unfolding load
found = refl

tick_id-IsDecided_example :
    (m' : PolicyMetrics) × (tsp' : Processor SpanCount) × (after : TraceData) × (tick_id
        five_seconds 7 no_metrics processor
      ≡ some (m', tsp'))
    × IsDecided five_seconds processor tsp' trace after
    × (tsp'.id_to_trace ≡ modify 7 after processor.id_to_trace)
tick_id-IsDecided_example = tick_id-IsDecided five_seconds 7 no_metrics processor trace found refl

abbrev two_scopes : ResourceSpans
two_scopes = record (batch []) { scope_spans = (span 7 ∷ span 8 ∷ []) ∷ (span 7 ∷ []) ∷ [] }

group_spans_by_trace_key-spans_of_example :
    groups_of 7 (group_spans_by_trace_key two_scopes)
    ≡ at_most_one (spans_of 7 (joined two_scopes.scope_spans))
group_spans_by_trace_key-spans_of_example = group_spans_by_trace_key-spans_of 7 two_scopes

-- A second trace takes the place of the first.
consume_traces-IsBounded_example :
    Keeps processor
      (consume_traces (λ groups. groups) five_seconds (batch (span 8 ∷ span 7 ∷ []) ∷ []) processor)
consume_traces-IsBounded_example =
    consume_traces-IsBounded (λ groups. groups) five_seconds (batch (span 8 ∷ span 7 ∷ []) ∷ [])
      processor processor-HasRoom processor-IsBounded

abbrev events : List Event
events =
    tick five_seconds
    ∷ consume 6_000_000_000 (λ groups. groups) (batch (span 7 ∷ span 8 ∷ []) ∷ [])
    ∷ receive
    ∷ tick 7_000_000_000
    ∷ []

run-IsLive_example :
    (tsp' : Processor SpanCount) × (Life.run events processor ≡ some tsp')
    × IsLive tsp'
    × (length tsp'.id_to_trace ≤ 1)
    × (tsp'.num_traces_on_map ≡ length tsp'.id_to_trace)
run-IsLive_example =
    run-IsLive events processor
      (record { bounded = processor-IsBounded; room = processor-HasRoom; pipe = omega arith })

-- A cache that keeps nothing, and percentages in whole numbers.
abbrev pub no_cache : LruCache
no_cache = record {
  Cache = Unit {0};
  new = λ size. tt;
  lru_get = λ s c. (none, c);
  lru_add = λ s b c. c;
}

abbrev whole : Percentages
whole = record {
  Percentage = ℕ;
  is_zero = λ p. p == 0;
  is_hundred = λ p. p == 100;
  calculate_threshold = λ p. p * 184_467_440_737_095_516;
}

abbrev base : BasePolicy ℕ
base = record {
  name = "errors";
  policy_type = "policy_group";
  priority = pos 1;
  hash_salt = "";
  sampling_percentage = 50;
  policy_filter = record {
    filter_op = "and";
    string_attribute_cfgs = [];
    numeric_attribute_cfgs = [];
  };
}

abbrev config : Config ℕ
config = record {
  decision_wait = 2_000_000_000;
  num_traces = 100;
  expected_new_traces_per_sec = 10;
  policy_cfgs = record { base_policy = base; sub_policies = [] } ∷ [];
  version = pos 2;
}

config-valid : validate config ≡ []
unfolding validate without_priority
config-valid = refl

new_traces_processor-no_policies_example :
    (tsp : Processor (RootEvaluator no_cache)) × (new_traces_processor no_cache
        (λ _. none)
        whole
        (λ _. none)
        4
        config
      ≡ some (ok tsp))
    × (tsp.policies ≡ [])
    × IsLive tsp
new_traces_processor-no_policies_example =
    new_traces_processor-no_policies no_cache (λ _. none) whole (λ _. none) 4 config config-valid
      (omega arith) (omega arith) (omega arith) (omega arith)
