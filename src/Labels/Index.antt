-- ===== src/Labels/Index.antt =====
-- `label_index` of web/services/cluster_labels.py: which label the cluster at a rank takes.
use native.Mathlib.Nat.{div-mul-le_self, lt-div-mul-add, div-eq_of_lt-le, add-div_right}
use retail_segmentation.Prelude.{
  ℕ, zero, suc, ◌+◌, ◌-◌, ◌*◌, ◌/◌, ◌≤◌, ◌<◌, ◌≡◌, arith, div_mono, ◌⊎◌, inl, inr,
}

-- The span of an empty vocabulary is -1 in the code and 0 here; check_vocabulary_size refuses it before.
unfoldable pub label_index : ℕ → ℕ → ℕ → ℕ
label_index rank k vocabulary_size =
    let span = vocabulary_size - 1 in (2 * rank * span + (k - 1)) / (2 * (k - 1))

-- With `p + 1` clusters and `s + 1` labels.
abbrev placed : ℕ → ℕ → ℕ → ℕ
placed r p s = (2 * r * s + p) / (2 * p)

-- With at least two clusters, the position of the label is the exact proportional one rounded to the nearest,
-- a half towards the worse label.
pub label_index_nearest :
    (rank k v : ℕ)
    → 2 ≤ k
    → (label_index rank k v * (2 * (k - 1)) ≤ 2 * rank * (v - 1) + (k - 1))
      × (2 * rank * (v - 1) < label_index rank k v * (2 * (k - 1)) + (k - 1))
unfolding label_index
label_index_nearest rank k v h =
    let p = k - 1 in
    let x = 2 * rank * (v - 1) + p in
    let a = div-mul-le_self x (2 * p) in
    let b = lt-div-mul-add {a = x} {b = 2 * p} (omega arith) in (a, omega (arith, b))

placed_at :
    (r p s i : ℕ)
    → i * (2 * p) ≤ 2 * r * s + p
    → 2 * r * s + p < (i + 1) * (2 * p)
    → placed r p s ≡ i
placed_at r p s i a b = div-eq_of_lt-le {k = i} (2 * p) a b

-- With at least two clusters, the best takes the first label and the worst the last.
pub label_index_ends :
    (k v : ℕ) → 2 ≤ k → (label_index 0 k v ≡ 0) × (label_index (k - 1) k v ≡ v - 1)
unfolding label_index
label_index_ends k v h = (
  placed_at 0 (k - 1) (v - 1) 0 (omega arith) (omega arith),
  placed_at (k - 1) (k - 1) (v - 1) (v - 1) (omega arith) (omega arith),
)

-- With as many clusters as labels the pairing is one to one, rank by rank.
pub label_index_same : (rank k : ℕ) → 2 ≤ k → label_index rank k k ≡ rank
unfolding label_index
label_index_same rank k h = placed_at rank (k - 1) (k - 1) rank (omega arith) (omega arith)

-- A worse rank never takes a better label.
pub label_index_mono : (r r' k v : ℕ) → r ≤ r' → label_index r k v ≤ label_index r' k v
unfolding label_index
label_index_mono r r' k v h = div_mono (2 * (k - 1)) _ _ (grind arith)

-- Every cluster's label is in the vocabulary.
pub label_index-lt : (rank k v : ℕ) → 2 ≤ k → 1 ≤ v → rank < k → label_index rank k v < v
label_index-lt rank k v h n l =
    omega (arith, label_index_mono rank (k - 1) k v (omega arith), (label_index_ends k v h).1)

next_le : (r k v : ℕ) → 2 ≤ k → v ≤ k → label_index (suc r) k v ≤ label_index r k v + 1
unfolding label_index
next_le r k v h l = omega (
  arith,
  div_mono (2 * (k - 1)) (2 * suc r * (v - 1) + (k - 1)) (2 * r * (v - 1) + (k - 1) + 2 * (k - 1))
      (omega arith),
  add-div_right (2 * r * (v - 1) + (k - 1)) {k = 2 * (k - 1)} (omega arith),
)

next_gt : (r k v : ℕ) → 2 ≤ k → k ≤ v → label_index r k v < label_index (suc r) k v
unfolding label_index
next_gt r k v h l = omega (
  arith,
  div_mono (2 * (k - 1)) (2 * r * (v - 1) + (k - 1) + 2 * (k - 1)) (2 * suc r * (v - 1) + (k - 1))
      (omega arith),
  add-div_right (2 * r * (v - 1) + (k - 1)) {k = 2 * (k - 1)} (omega arith),
)

-- With at least two clusters, and no more clusters than labels, two different ranks take different labels,
-- the worse rank the worse label.
pub label_index_strict :
    (r r' k v : ℕ) → 2 ≤ k → k ≤ v → r < r' → label_index r k v < label_index r' k v
label_index_strict r r' k v h l lt =
    omega (arith, next_gt r k v h l, label_index_mono (suc r) r' k v lt)

reached :
    (n k v t : ℕ)
    → 2 ≤ k
    → v ≤ k
    → t ≤ label_index n k v
    → (r : ℕ) × (r ≤ n) × (label_index r k v ≡ t)
reached zero k v t h l b = (0, omega arith, omega (arith, (label_index_ends k v h).0))
reached (suc n) k v t h l b = elim (at_or_below t (label_index n k v)) [
  | inl below ↦ let (r, le, e) = reached n k v t h l below in (r, omega arith, e)
  | inr above ↦ (suc n, omega arith, omega (arith, next_le n k v h l))
]
  where
    at_or_below : (a b : ℕ) → (a ≤ b) ⊎ (b < a)
    at_or_below a b = omega arith

-- With at least two clusters, and at least as many clusters as labels, every label is taken by the cluster at
-- some rank.
pub label_index_onto :
    (k v t : ℕ) → 2 ≤ k → v ≤ k → t < v → (r : ℕ) × (r < k) × (label_index r k v ≡ t)
label_index_onto k v t h l b =
    let (r, le, e) = reached (k - 1) k v t h l (omega (arith, (label_index_ends k v h).1)) in
    (r, omega arith, e)
