-- ===== src/TailSampler/Intake.antt =====
-- How spans come in, processor/signoztailsampler/processor.go (ConsumeTraces, processTraces,
-- dropTrace). `none` is a panic, or a channel operation that blocks for ever.
pub mod Laws
use k_o11y_otel_gateway.Prelude.{
  ℕ, ◌+◌, ◌-◌, ◌%◌, ◌^◌, Option, none, some, List, [], ◌∷◌, ◌++◌, length, replicate, ltb,
  if◌then◌else◌,
}
use k_o11y_otel_gateway.Prelude.Int.{ℤ, pos, add64}
use k_o11y_otel_gateway.Sampling.Trace.{
  Span, ResourceSpans, Traces, TraceData, unspecified, pending, sampled,
}
use k_o11y_otel_gateway.TailSampler.Batcher.{add_to_current_batch}
use k_o11y_otel_gateway.TailSampler.Table.{load, store, modify, delete}
use k_o11y_otel_gateway.TailSampler.Decide.{Policy}
use k_o11y_otel_gateway.TailSampler.State.{Processor}
use k_o11y_otel_gateway.TailSampler.Group.{group_spans_by_trace_key, append_to_traces}

abbrev pub span_total : List Span → ℤ
span_total spans = pos (length spans)

module _ {E : Type 0} where
  unfoldable pub drop_trace : ℕ → Processor E → Processor E
  drop_trace id tsp = elim (load id tsp.id_to_trace) [
    | none ↦ tsp
    | some trace ↦ record tsp {
      id_to_trace = delete id tsp.id_to_trace;
      num_traces_on_map = (tsp.num_traces_on_map + (2 ^ 64 - 1)) % 2 ^ 64;
    }
  ]

  -- The loop that posts an id for deletion: while the channel is full, the oldest trace is dropped.
  -- It is a recursion on what the channel holds; an empty channel that is full blocks.
  unfoldable pub post_deletion : ℕ → List ℕ → Processor E → Option (Processor E)
  post_deletion id [] tsp =
      if ltb 0 tsp.max_num_traces then some (record tsp { delete_chan = id ∷ [] }) else none
  post_deletion id (oldest ∷ queue) tsp =
      let retry = post_deletion id queue (drop_trace oldest tsp) in
      if ltb (length (oldest ∷ queue)) tsp.max_num_traces
      then some (record tsp { delete_chan = (oldest ∷ queue) ++ id ∷ [] })
      else retry

  unfoldable pub new_trace : ℕ → List Span → List (Policy E) → TraceData
  new_trace now spans policies = record {
    decisions = replicate (length policies) pending;
    arrival_time = now;
    decision_time = 0;
    span_count = span_total spans;
    received_batches = [];
    final_decision = unspecified;
  }

  -- Keep the spans while the trace is undecided; a decision that has been made is followed.
  unfoldable pub deliver : ResourceSpans → ℕ → List Span → TraceData → Processor E → Processor E
  deliver rss id spans actual tsp = elim actual.final_decision [
    | unspecified ↦ record tsp {
      id_to_trace =
          modify id
            (record actual {
              received_batches = append_to_traces actual.received_batches rss spans;
            })
            tsp.id_to_trace;
    }
    | sampled ↦ record tsp { forwarded = tsp.forwarded ++ append_to_traces [] rss spans ∷ [] }
    | _ ↦ tsp
  ]

  -- A trace id that is not on the map: it is stored, queued for a decision and for deletion.
  unfoldable pub admit_trace : ℕ → ℕ → List Span → Processor E → Option (TraceData × Processor E)
  admit_trace now id spans tsp = elim (add_to_current_batch id tsp.decision_batcher) [
    | none ↦ none
    | some b ↦
        let trace = new_trace now spans tsp.policies in
        elim (post_deletion id tsp.delete_chan (record tsp {
          id_to_trace = store id trace tsp.id_to_trace;
          decision_batcher = b;
          num_traces_on_map = (tsp.num_traces_on_map + 1) % 2 ^ 64;
        })) [ none ↦ none | some tsp' ↦ some (trace, tsp') ]
  ]

  unfoldable pub process_group :
      ℕ → ResourceSpans → ℕ → List Span → Processor E → Option (Processor E)
  process_group now rss id spans tsp = elim (load id tsp.id_to_trace) [
    | some trace ↦
        let actual = record trace { span_count = add64 trace.span_count (span_total spans) } in
        some (
          deliver rss id spans actual
            (record tsp { id_to_trace = modify id actual tsp.id_to_trace }))
    | none ↦ elim (admit_trace now id spans tsp) [
      | none ↦ none
      | some (actual, tsp') ↦ some (deliver rss id spans actual tsp')
    ]
  ]

  unfoldable pub process_groups :
      ℕ → ResourceSpans → List (ℕ × List Span) → Processor E → Option (Processor E)
  process_groups now rss [] tsp = some tsp
  process_groups now rss ((id, spans) ∷ groups) tsp = elim (process_group now rss id spans tsp) [
    | none ↦ none
    | some tsp' ↦ process_groups now rss groups tsp'
  ]

  -- Go ranges over a map in an order of its own: `iterate` gives the order of the groups.
  module _ (iterate : List (ℕ × List Span) → List (ℕ × List Span)) where
    unfoldable pub process_traces : ℕ → ResourceSpans → Processor E → Option (Processor E)
    process_traces now rss tsp = process_groups now rss (iterate (group_spans_by_trace_key rss)) tsp

    unfoldable pub consume_traces : ℕ → Traces → Processor E → Option (Processor E)
    consume_traces now [] tsp = some tsp
    consume_traces now (rss ∷ td) tsp = elim (process_traces now rss tsp) [
      | none ↦ none
      | some tsp' ↦ consume_traces now td tsp'
    ]
