-- ===== src/Kmeans/Refill.antt =====
-- `refill_empty_clusters` of web/services/kmeans.py, and the cluster sizes that it and `fit` count.
pub mod Counting
pub mod Donor
pub mod Full
use mathlib.Core.List.{foldl}
use retail_segmentation.Prelude.{
  ℕ, zero, suc, ◌+◌, ◌-◌, Bool, true, false, ◌&&◌, not, Option, none, some, List, [], ◌∷◌, length,
  get_or, set, replicate, if◌then◌else◌, ltb, ◌==◌, range,
}
use retail_segmentation.Floats.{Float, FloatOps}
use retail_segmentation.Kmeans.Domain.{Point}
use retail_segmentation.Kmeans.Assign.{squared}

abbrev pub size_of : List ℕ → ℕ → ℕ
size_of sizes cluster = get_or sizes cluster 0

-- `sizes[cluster] += 1`
abbrev bump : List ℕ → ℕ → List ℕ
bump sizes cluster = set sizes cluster (size_of sizes cluster + 1)

-- The loop that counts the clusters' sizes, from `[0] * k`.
unfoldable pub count_sizes : ℕ → List ℕ → List ℕ
count_sizes k assignments = foldl bump (replicate k 0) assignments

abbrev pub origin : FloatOps → Point
origin ops = (ops.zero, ops.zero, ops.zero)

-- The assignments, the sizes and how many customers were moved so far.
pub record State : Type 0 where
  pub assignments : List ℕ
  pub sizes : List ℕ
  pub moved : ℕ

-- An index of -1 is the last one.
abbrev at_index : Option ℕ → List ℕ → ℕ
at_index none assignments = length assignments - 1
at_index (some index) assignments = index

move : ℕ → ℕ → State → State
move empty index s =
    let cluster = get_or s.assignments index 0 in
    record {
      assignments = set s.assignments index empty;
      sizes = set (set s.sizes cluster (size_of s.sizes cluster - 1)) empty 1;
      moved = s.moved + 1;
    }

module _ (ops : FloatOps) where
  -- The inner loop from `index` on: the donor so far and its distance. Python writes -1 for no donor.
  pub donor_from : List ℕ → List Point → ℕ → List Point → List ℕ → Option ℕ → Float → Option ℕ
  donor_from sizes centroids index (p ∷ points) (cluster ∷ assignments) donor farthest =
      let distance = squared ops p (get_or centroids cluster (origin ops)) in
      let farther = not (ltb (size_of sizes cluster) 2) && ops.lt farthest distance in
      donor_from sizes centroids (suc index) points assignments
        (if farther then some index else donor) (if farther then distance else farthest)
  donor_from sizes centroids index points assignments donor farthest = donor

  -- One round of the outer loop.
  refill_one : List Point → List Point → ℕ → State → State
  unfolding donor_from move
  refill_one points centroids empty s =
      if not (size_of s.sizes empty == 0)
      then s
      else move empty
          (at_index (donor_from s.sizes centroids 0 points s.assignments none ops.minus_one)
            s.assignments)
          s

  refill_all : List Point → List Point → List ℕ → State → State
  unfolding refill_one
  refill_all points centroids [] s = s
  refill_all points centroids (empty ∷ rest) s =
      refill_all points centroids rest (refill_one points centroids empty s)

  unfoldable pub refill_empty_clusters : List Point → List ℕ → List Point → State
  unfolding refill_all count_sizes
  refill_empty_clusters points assignments centroids =
      refill_all points centroids (range (length centroids)) (record {
        assignments = assignments;
        sizes = count_sizes (length centroids) assignments;
        moved = 0;
      })
