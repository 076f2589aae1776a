-- ===== src/Harness.antt =====
-- packages/harness: the evaluation of retained observations.
pub mod Samples
pub mod HistogramEstimates
pub mod Series
pub mod Coverage
pub mod Merging
pub mod Readiness
pub mod Waiting
pub mod GraphWindow
pub mod DeltaPoints
pub mod ForbiddenGraph
pub mod Cumulative
pub mod Windows
pub mod Points
pub mod Counters
pub mod Durations
pub mod Assertions
pub mod TimeAuthority
pub mod HardwareTiming
