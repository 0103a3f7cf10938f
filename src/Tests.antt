-- ===== src/Tests.antt =====
-- The theorems at concrete inputs.
pub mod Arithmetic
pub mod Data
pub mod Labels
pub mod Clusters
pub mod Scoring
pub mod Runs
pub mod Recommendations
pub mod Throttle
pub mod Ingestion
pub mod Experiments
pub mod Migration
