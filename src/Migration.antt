-- ===== src/Migration.antt =====
-- How customers move between two segmentation runs: web/services/segment_migration.py.
pub mod Dicts
pub mod Classify
pub mod Matrix
pub mod Cells
pub mod Totals
pub mod Order
pub mod Reconcile
pub mod Total
pub mod Vocabulary
pub mod Everyone
pub mod Earlier
