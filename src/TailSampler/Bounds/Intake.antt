-- ===== src/TailSampler/Bounds/Intake.antt =====
-- The memory bound across ConsumeTraces of processor/signoztailsampler/processor.go.
use k_o11y_otel_gateway.Prelude.{
  ℕ, ◌+◌, ◌%◌, ◌^◌, Option, some, List, [], ◌∷◌, ◌++◌, ◌≡◌, refl, sym, ◌∙◌, ap, length,
  length-replicate, arith, Option-cases, inl, inr,
}
use k_o11y_otel_gateway.Prelude.Int.{add64}
use k_o11y_otel_gateway.Sampling.Trace.{Span, ResourceSpans, Traces, TraceData, pending}
use k_o11y_otel_gateway.TailSampler.Batcher.Running.{add_to_current_batch-running}
use k_o11y_otel_gateway.TailSampler.Table.{load, store, modify}
use k_o11y_otel_gateway.TailSampler.Table.Laws.{
  keys-modify, keys-store, Entries-modify, Entries-store, Entries-load,
}
use k_o11y_otel_gateway.TailSampler.Group.{append_to_traces, group_spans_by_trace_key}
use k_o11y_otel_gateway.TailSampler.State.{Processor}
use k_o11y_otel_gateway.TailSampler.Intake.{
  new_trace, deliver, admit_trace, process_group, process_groups, process_traces, consume_traces,
  span_total,
}
use k_o11y_otel_gateway.TailSampler.Bounds.{
  IsJudged, IsBounded, HasRoom, HasRoom-same, SameSetup, SameSetup-trans, post_deletion-IsBounded,
}

module _ {E : Type 0} where
  -- The call returns, the bound holds after it, and the limit, the number of policies
  -- and the length of the pipe are the same.
  abbrev pub Keeps : Processor E → Option (Processor E) → Type 0
  Keeps tsp r = (tsp' : Processor E) × (r ≡ some tsp') × IsBounded tsp' × SameSetup tsp tsp'

  deliver-IsBounded :
      (rss : ResourceSpans) (id : ℕ) (spans : List Span) (actual : TraceData) (tsp : Processor E)
      → IsJudged tsp.policies actual
      → IsBounded tsp
      → IsBounded (deliver rss id spans actual tsp)
        × SameSetup tsp (deliver rss id spans actual tsp)
  unfolding deliver
  deliver-IsBounded rss id spans actual tsp j h = ground (
    arith,
    h,
    keys-modify id
        (record actual { received_batches = append_to_traces actual.received_batches rss spans })
        tsp.id_to_trace,
    Entries-modify (IsJudged tsp.policies) id
        (record actual { received_batches = append_to_traces actual.received_batches rss spans })
        tsp.id_to_trace j h.judged,
  )

  admit_trace-IsBounded :
      (now id : ℕ) (spans : List Span) (tsp : Processor E)
      → HasRoom tsp
      → IsBounded tsp
      → (actual : TraceData) × (tsp' : Processor E) × (admit_trace now id spans tsp
          ≡ some (actual, tsp'))
        × IsJudged tsp.policies actual
        × IsBounded tsp'
        × SameSetup tsp tsp'
  unfolding admit_trace new_trace
  admit_trace-IsBounded now id spans tsp room h =
      let (b, taken, runs, same_batches) =
        add_to_current_batch-running id tsp.decision_batcher h.running in
      let trace = new_trace now spans tsp.policies in
      let judged : IsJudged tsp.policies trace = length-replicate (length tsp.policies) pending in
      let (tsp', posted, valid, same) =
        post_deletion-IsBounded id tsp.delete_chan
          (record tsp {
            id_to_trace = store id trace tsp.id_to_trace;
            decision_batcher = b;
            num_traces_on_map = (tsp.num_traces_on_map + 1) % 2 ^ 64;
          })
          room
          (record {
            tracked = keys-store id trace tsp.id_to_trace ∙ ap (λ q. q ++ id ∷ []) h.tracked;
            counted = rw h.counted;
            bounded = h.bounded;
            judged = Entries-store (IsJudged tsp.policies) id trace tsp.id_to_trace judged h.judged;
            running = runs;
          }) in
      (
        trace,
        tsp',
        ground (arith, taken, posted),
        judged,
        valid,
        record {
          same_max = same.same_max;
          same_policies = same.same_policies;
          same_pipe = same.same_pipe ∙ ap length same_batches;
        },
      )

  process_group-IsBounded :
      (now : ℕ) (rss : ResourceSpans) (id : ℕ) (spans : List Span) (tsp : Processor E)
      → HasRoom tsp
      → IsBounded tsp
      → Keeps tsp (process_group now rss id spans tsp)
  unfolding process_group
  process_group-IsBounded now rss id spans tsp room h =
      elim (Option-cases (load id tsp.id_to_trace)) [
        | inl new ↦
            let (actual, tsp', admitted, judged, valid, same) =
              admit_trace-IsBounded now id spans tsp room h in
            let (valid', same') =
              deliver-IsBounded rss id spans actual tsp' (judged ∙ sym same.same_policies) valid in
            (
              deliver rss id spans actual tsp',
              ground (arith, new, admitted),
              valid',
              SameSetup-trans same same',
            )
        | inr (trace, old) ↦
            let actual = record trace { span_count = add64 trace.span_count (span_total spans) } in
            let judged : IsJudged tsp.policies actual =
              Entries-load (IsJudged tsp.policies) id tsp.id_to_trace trace h.judged old in
            let counted = record tsp { id_to_trace = modify id actual tsp.id_to_trace } in
            let (valid, same) = deliver-IsBounded rss id spans actual counted judged (record {
              tracked = keys-modify id actual tsp.id_to_trace ∙ h.tracked;
              counted = h.counted;
              bounded = h.bounded;
              judged =
                  Entries-modify (IsJudged tsp.policies) id actual tsp.id_to_trace judged h.judged;
              running = h.running;
            }) in
            (
              deliver rss id spans actual counted,
              ground (arith, old),
              valid,
              record {
                same_max = same.same_max;
                same_policies = same.same_policies;
                same_pipe = same.same_pipe;
              },
            )
      ]

  process_groups-IsBounded :
      (now : ℕ) (rss : ResourceSpans) (groups : List (ℕ × List Span)) (tsp : Processor E)
      → HasRoom tsp
      → IsBounded tsp
      → Keeps tsp (process_groups now rss groups tsp)
  unfolding process_groups
  process_groups-IsBounded now rss [] tsp room h =
      (tsp, refl, h, record { same_max = refl; same_policies = refl; same_pipe = refl })
  process_groups-IsBounded now rss ((id, spans) ∷ groups) tsp room h =
      let (tsp₁, done₁, valid₁, same₁) = process_group-IsBounded now rss id spans tsp room h in
      let (tsp₂, done₂, valid₂, same₂) =
        process_groups-IsBounded now rss groups tsp₁ (HasRoom-same same₁ room) valid₁ in
      (tsp₂, ground (arith, done₁, done₂), valid₂, SameSetup-trans same₁ same₂)

  module _ (iterate : List (ℕ × List Span) → List (ℕ × List Span)) where
    -- However Go orders the groups, taking in any spans returns; the map then holds at most
    -- `maxNumTraces` traces, which the counter and the deletion channel agree with, and each of
    -- them has one decision for each policy.
    pub consume_traces-IsBounded :
        (now : ℕ) (td : Traces) (tsp : Processor E)
        → HasRoom tsp
        → IsBounded tsp
        → Keeps tsp (consume_traces iterate now td tsp)
    unfolding consume_traces process_traces
    consume_traces-IsBounded now [] tsp room h =
        (tsp, refl, h, record { same_max = refl; same_policies = refl; same_pipe = refl })
    consume_traces-IsBounded now (rss ∷ td) tsp room h =
        let (tsp₁, done₁, valid₁, same₁) =
          process_groups-IsBounded now rss (iterate (group_spans_by_trace_key rss)) tsp room h in
        let (tsp₂, done₂, valid₂, same₂) =
          consume_traces-IsBounded now td tsp₁ (HasRoom-same same₁ room) valid₁ in
        (tsp₂, ground (arith, done₁, done₂), valid₂, SameSetup-trans same₁ same₂)
