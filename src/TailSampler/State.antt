-- ===== src/TailSampler/State.antt =====
-- The state of the processor, processor/signoztailsampler/processor.go
-- (tailSamplingSpanProcessor). What the next consumer is given is kept in `forwarded`, the oldest
-- call first; its errors are only logged.
use k_o11y_otel_gateway.Prelude.{ℕ, List}
use k_o11y_otel_gateway.Sampling.Trace.{Traces, TraceData}
use k_o11y_otel_gateway.TailSampler.Batcher.{Batcher}
use k_o11y_otel_gateway.TailSampler.Decide.{Policy}

pub record Processor (E : Type 0) : Type 0 where
  pub max_num_traces : ℕ
  pub policies : List (Policy E)
  pub id_to_trace : List (ℕ × TraceData)
  pub decision_batcher : Batcher
  pub delete_chan : List ℕ
  pub num_traces_on_map : ℕ
  pub forwarded : List Traces
