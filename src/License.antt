-- ===== src/License.antt =====
-- The licence of the gateway: extension/licenseguardextension checks it on a timer, and
-- processor/licensegateprocessor lets telemetry through while it is valid.
pub mod Checker
pub mod Guard
pub mod Gate
mod Tests
