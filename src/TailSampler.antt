-- ===== src/TailSampler.antt =====
-- The tail sampler (processor/signoztailsampler): configuration, policies, batches of trace ids, and
-- the processor.
pub mod Config
pub mod Evaluator
pub mod Batcher
pub mod Table
pub mod Decide
pub mod State
pub mod Group
pub mod Tick
pub mod Intake
pub mod Build
pub mod Bounds
pub mod Life
mod Tests
