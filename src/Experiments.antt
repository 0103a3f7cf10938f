-- ===== src/Experiments.antt =====
-- Campaigns and experiments of the web application: web/services/campaigns.py and web/services/experiments.py, with the
-- tables behind them.
pub mod Lab
pub mod Parsing
pub mod Campaigns
pub mod Setup
pub mod Forms
pub mod Validation
pub mod Blank
pub mod Accepted
pub mod Submitted
pub mod Assignment
pub mod Exposure
pub mod Chains
pub mod Writes
pub mod Shapes
pub mod Steps
pub mod Evolution
pub mod Frame
pub mod Frozen
pub mod Controls
pub mod Sound
pub mod Dealing
pub mod Arms
pub mod Rows
pub mod Agreement
