-- ===== src/Kmeans/Assign.antt =====
-- The pieces of an assignment step of web/services/kmeans.py: distances and the nearest centroid.
use retail_segmentation.Prelude.{
  ℕ, suc, ◌+◌, ◌≤◌, ◌<◌, List, [], ◌∷◌, length, if◌then◌else◌, arith, Bool-cases, inl, inr,
}
use retail_segmentation.Floats.{Float, FloatOps}
use retail_segmentation.Kmeans.Domain.{Point}

module _ (ops : FloatOps) where
  unfoldable pub squared : Point → Point → Float
  squared a b =
      ops.add (ops.add (ops.square (ops.sub a.0 b.0)) (ops.square (ops.sub a.1 b.1)))
        (ops.square (ops.sub a.2 b.2))

  -- The loop of `nearest` from `index` on, with `best` and `best_distance` so far.
  nearest_from : Point → ℕ → Float → ℕ → List Point → ℕ
  nearest_from point best best_distance index [] = best
  nearest_from point best best_distance index (c ∷ rest) =
      let distance = squared point c in
      let nearer = ops.lt distance best_distance in
      nearest_from point (if nearer then index else best)
        (if nearer then distance else best_distance) (suc index) rest

  -- With no centroid Python raises; a fit has at least one.
  unfoldable pub nearest : Point → List Point → ℕ
  unfolding nearest_from
  nearest point [] = 0
  nearest point (c ∷ rest) = nearest_from point 0 (squared point c) 1 rest

  nearest_from-lt :
      (point : Point) (best : ℕ) (d : Float) (index : ℕ) (rest : List Point) (k : ℕ)
      → best < k
      → index + length rest ≤ k
      → nearest_from point best d index rest < k
  unfolding nearest_from
  nearest_from-lt point best d index [] k b l = b
  nearest_from-lt point best d index (c ∷ rest) k b l =
      elim (Bool-cases (ops.lt (squared point c) d)) [
        | inl nearer ↦ rw nearer (
            nearest_from-lt point index (squared point c) (suc index) rest k (omega arith)
              (omega arith))
        | inr farther ↦ rw farther (nearest_from-lt point best d (suc index) rest k b (omega arith))
      ]

  -- The result is the number of a centroid.
  pub nearest-lt :
      (point : Point) (centroids : List Point)
      → 0 < length centroids
      → nearest point centroids < length centroids
  unfolding nearest
  nearest-lt point [] h = absurd (omega arith)
  nearest-lt point (c ∷ rest) h =
      nearest_from-lt point 0 (squared point c) 1 rest (suc (length rest)) (omega arith)
        (omega arith)
