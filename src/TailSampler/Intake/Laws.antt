-- ===== src/TailSampler/Intake/Laws.antt =====
-- Spans of a trace that the processor already knows, processor/signoztailsampler/processor.go
-- (processTraces).
use k_o11y_otel_gateway.Prelude.{
  ℕ, Bool, true, false, some, List, [], ◌∷◌, ◌++◌, ◌≡◌, refl, arith, if◌then◌else◌,
}
use k_o11y_otel_gateway.Prelude.Int.{add64}
use k_o11y_otel_gateway.Sampling.Trace.{
  Span, ResourceSpans, TraceData, Decision, unspecified, is_sampled,
}
use k_o11y_otel_gateway.TailSampler.Table.{load, modify}
use k_o11y_otel_gateway.TailSampler.Table.Laws.{load-modify}
use k_o11y_otel_gateway.TailSampler.State.{Processor}
use k_o11y_otel_gateway.TailSampler.Group.{append_to_traces}
use k_o11y_otel_gateway.TailSampler.Intake.{span_total, deliver, process_group}

abbrev pub is_unspecified : Decision → Bool
is_unspecified unspecified = true
is_unspecified _ = false

-- The trace with more spans, kept while it is undecided.
abbrev pub grown : ResourceSpans → List Span → TraceData → TraceData
grown rss spans trace = record trace {
  span_count = add64 trace.span_count (span_total spans);
  received_batches =
      if is_unspecified trace.final_decision
      then append_to_traces trace.received_batches rss spans
      else trace.received_batches;
}

load_modified :
    (id : ℕ) (v w : TraceData) (t : List (ℕ × TraceData))
    → load id t ≡ some w
    → load id (modify id v t) ≡ some v
load_modified id v w t h = ground (arith, h, load-modify id id v t)

module _ {E : Type 0} where
  -- What `processTraces` leaves of a trace that it knew.
  pub record IsGrown (rss : ResourceSpans) (id : ℕ) (spans : List Span) (trace : TraceData)
      (tsp tsp' : Processor E) : Type 0 where
    pub kept : load id tsp'.id_to_trace ≡ some (grown rss spans trace)
    pub passed_on : tsp'.forwarded ≡ (
        if is_sampled trace.final_decision
        then tsp.forwarded ++ append_to_traces [] rss spans ∷ []
        else tsp.forwarded)
    pub same_batcher : tsp'.decision_batcher ≡ tsp.decision_batcher
    pub same_chan : tsp'.delete_chan ≡ tsp.delete_chan
    pub same_number : tsp'.num_traces_on_map ≡ tsp.num_traces_on_map

  deliver-IsGrown :
      (rss : ResourceSpans) (id : ℕ) (spans : List Span) (trace actual : TraceData)
      (tsp : Processor E)
      → load id tsp.id_to_trace ≡ some trace
      → actual ≡ record trace { span_count = add64 trace.span_count (span_total spans) }
      → IsGrown rss id spans trace tsp (
          deliver rss id spans actual
            (record tsp { id_to_trace = modify id actual tsp.id_to_trace }))
  unfolding deliver
  deliver-IsGrown rss id spans trace actual tsp found e =
      let grows : TraceData = record actual {
        received_batches = append_to_traces actual.received_batches rss spans;
      } in
      let here = load_modified id actual trace tsp.id_to_trace found in
      let again = load_modified id grows actual (modify id actual tsp.id_to_trace) here in
      ground (arith, e, here, again)

  -- Spans of a trace that is on the map always return and are counted. While the trace is undecided
  -- they are kept with it; when it was sampled they are passed on at once, and else dropped. The trace
  -- is not queued again, for a decision or for deletion.
  pub process_group-IsGrown :
      (now : ℕ) (rss : ResourceSpans) (id : ℕ) (spans : List Span) (trace : TraceData)
      (tsp : Processor E)
      → load id tsp.id_to_trace ≡ some trace
      → (tsp' : Processor E) × (process_group now rss id spans tsp ≡ some tsp')
        × IsGrown rss id spans trace tsp tsp'
  unfolding process_group
  process_group-IsGrown now rss id spans trace tsp found =
      let actual : TraceData = record trace {
        span_count = add64 trace.span_count (span_total spans);
      } in
      (
        deliver rss id spans actual (record tsp { id_to_trace = modify id actual tsp.id_to_trace }),
        ground (arith, found),
        deliver-IsGrown rss id spans trace actual tsp found refl,
      )
