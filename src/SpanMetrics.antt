-- ===== src/SpanMetrics.antt =====
-- The span metrics processor, processor/signozspanmetricsprocessor: its cache.
pub mod Cache
pub mod Span
pub mod Keys
pub mod Histogram
pub mod Address
pub mod Store
pub mod Processor
mod Tests
