-- ===== src/Segmentation.antt =====
-- The segmentation pipeline: web/services/segmentation.py with the reads and writes of
-- web/db/segments.py and the transactions of web/db/transactions.py.
pub mod Domain
pub mod Window
pub mod Checks
pub mod Counts
pub mod Store
pub mod Session
pub mod Scoring
pub mod Pipeline
pub mod Clusters
pub mod History
pub mod Runs
