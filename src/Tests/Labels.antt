-- ===== src/Tests/Labels.antt =====
-- Labels of clusters, at concrete numbers.
use retail_segmentation.Prelude.{ℕ, ◌+◌, ◌-◌, ◌*◌, ◌≤◌, ◌<◌, ◌≡◌, arith}
use retail_segmentation.Labels.Index.{
  label_index, label_index_nearest, label_index_strict, label_index_onto,
}

label_index_nearest_example :
    (label_index 2 6 4 * (2 * (6 - 1)) ≤ 2 * 2 * (4 - 1) + (6 - 1))
    × (2 * 2 * (4 - 1) < label_index 2 6 4 * (2 * (6 - 1)) + (6 - 1))
label_index_nearest_example = label_index_nearest 2 6 4 (omega arith)

label_index_strict_example : label_index 1 3 8 < label_index 2 3 8
label_index_strict_example = label_index_strict 1 2 3 8 (omega arith) (omega arith) (omega arith)

label_index_onto_example : (r : ℕ) × (r < 6) × (label_index r 6 4 ≡ 2)
label_index_onto_example = label_index_onto 6 4 2 (omega arith) (omega arith) (omega arith)
