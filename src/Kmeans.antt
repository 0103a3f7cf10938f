-- ===== src/Kmeans.antt =====
-- web/services/kmeans.py: k-means over normalised recency, frequency and monetary values.
pub mod Domain
pub mod Normalise
pub mod Assign
pub mod Refill
pub mod Lloyd
pub mod Fit
