-- ===== src/Labels.antt =====
-- web/services/cluster_labels.py: from the clusters of a fit to the labels of the vocabulary.
pub mod Ranks
pub mod Index
pub mod Order
