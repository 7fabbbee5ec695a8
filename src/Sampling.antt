-- ===== src/Sampling.antt =====
-- The sampling policies of the tail sampler
-- (processor/signoztailsampler/internal/sampling).
pub mod Trace
pub mod Scan
pub mod Simple
pub mod Latency
pub mod Hash
pub mod Attribute
pub mod Rate
pub mod Combine
mod Tests
