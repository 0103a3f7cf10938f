-- ===== src/Kmeans/Normalise.antt =====
-- `min_max` and `normalise` of web/services/kmeans.py.
use Prim.Native.Nat.{max}
use mathlib.Core.List.{foldr}
use retail_segmentation.Prelude.{
  ℕ, ◌-◌, Bool, true, false, List, [], ◌∷◌, map, length, replicate, if◌then◌else◌,
}
use retail_segmentation.Floats.{Float, FloatOps, min_of, max_of}
use retail_segmentation.Kmeans.Domain.{Point, RawRfm}

module _ (ops : FloatOps) where
  scaled : Bool → Float → Float → Float → Float
  scaled true low high value = ops.div (ops.sub high value) (ops.sub high low)
  scaled false low high value = ops.div (ops.sub value low) (ops.sub high low)

  -- Of no value at all Python's `min` raises; `normalise` never asks for that.
  unfoldable pub min_max : List Float → Bool → List Float
  unfolding scaled
  min_max [] reverse = []
  min_max (v ∷ values) reverse =
      let low = min_of ops v values in
      let high = max_of ops v values in
      if ops.eq high low
      then replicate (length (v ∷ values)) ops.zero
      else map (scaled reverse low high) (v ∷ values)

  -- `zip(…, strict=True)` of three columns of one length
  abbrev pub columns : List Float → List Float → List Float → List Point
  columns (r ∷ rs) (f ∷ fs) (m ∷ ms) = (r, f, m) ∷ columns rs fs ms
  columns _ _ _ = []

  abbrev pub latest : List RawRfm → ℕ
  latest rows = foldr (λ row latest_so_far. max row.last_purchase_at latest_so_far) 0 rows

  -- The columns, one point for each row in the order given.
  unfoldable pub normalise : List RawRfm → List Point
  unfolding min_max
  normalise [] = []
  normalise (row ∷ rest) =
      let rows = row ∷ rest in
      let days =
        map (λ r. ops.div (ops.of_int (latest rows - r.last_purchase_at)) (ops.of_int 86400))
          rows in
      columns (min_max days true) (min_max (map (λ r. ops.of_int r.frequency) rows) false)
        (min_max (map (λ r. ops.of_cents r.monetary) rows) false)
