-- ===== src/Kmeans/Lloyd.antt =====
-- The loop of `fit` of web/services/kmeans.py: assign, refill, move the centroids, until they settle.
pub mod Settled
use retail_segmentation.Prelude.{
  ℕ, zero, suc, ◌+◌, Bool, true, false, Option, none, some, List, [], ◌∷◌, map, length, get_or, set,
  if◌then◌else◌, ◌==◌, Result, ok, err, ◌>>=◌, range, replicate,
}
use retail_segmentation.Floats.{Float, FloatOps, le, max_of}
use retail_segmentation.Kmeans.Domain.{Point, Params, Error, zero_division}
use retail_segmentation.Kmeans.Assign.{nearest}
use retail_segmentation.Kmeans.Refill.{State, refill_empty_clusters, origin}

-- What the loop carries: the centroids, the last movement, the rounds run and the refills made.
pub record Loop : Type 0 where
  pub centroids : List Point
  pub shift : Float
  pub iterations : ℕ
  pub events : ℕ

module _ (ops : FloatOps) where
  abbrev plus : Point → Point → Point
  plus a b = (ops.add a.0 b.0, ops.add a.1 b.1, ops.add a.2 b.2)

  -- The sum and the number of the points of one cluster, in their order.
  pub tally_cluster : ℕ → List Point → List ℕ → Point → ℕ → Point × ℕ
  tally_cluster c (p ∷ points) (a ∷ assignments) sum n =
      let here = a == c in
      tally_cluster c points assignments (if here then plus sum p else sum)
        (if here then suc n else n)
  tally_cluster c points assignments sum n = (sum, n)

  -- Dividing by a count of zero raises.
  pub mean : Point × ℕ → Result Error Point
  mean (sum, zero) = err zero_division
  mean (sum, suc n) =
      let d = ops.of_int (suc n) in ok (ops.div sum.0 d, ops.div sum.1 d, ops.div sum.2 d)

  pub means_of : List Point → List ℕ → List ℕ → Result Error (List Point)
  unfolding tally_cluster mean
  means_of points assignments [] = ok []
  means_of points assignments (c ∷ clusters) = do
    m ← mean (tally_cluster c points assignments (origin ops) 0)
    rest ← means_of points assignments clusters
    ok (m ∷ rest)

  -- `_means`
  unfoldable pub means : List Point → List ℕ → ℕ → Result Error (List Point)
  unfolding means_of
  means points assignments k = means_of points assignments (range k)

  -- The largest movement of a centroid.
  pub shifts : List Point → List Point → List Float
  shifts (a ∷ old) (b ∷ new) = ops.dist a b ∷ shifts old new
  shifts _ _ = []

  abbrev greatest : List Float → Float
  greatest [] = ops.zero
  greatest (x ∷ xs) = max_of ops x xs

  abbrev pub assign : List Point → List Point → State
  assign points centroids =
      refill_empty_clusters ops points (map (λ p. nearest ops p centroids) points) centroids

  abbrev pub moved_to : List Point → Loop → List Point → Loop
  moved_to points s updated = record {
    centroids = updated;
    shift = greatest (shifts s.centroids updated);
    iterations = s.iterations + 1;
    events = s.events + (assign points s.centroids).moved;
  }

  -- The body of the loop.
  pub round : List Point → Loop → Result Error Loop
  unfolding means
  round points s = do
    updated ← means points (assign points s.centroids).assignments (length s.centroids)
    ok (moved_to points s updated)

  -- `for iteration in range(1, max_iterations + 1)`, with its `break`.
  pub lloyd : List Point → Float → ℕ → Loop → Result Error Loop
  unfolding round
  lloyd points tolerance zero s = ok s
  lloyd points tolerance (suc rounds) s = do
    s' ← round points s
    let more = lloyd points tolerance rounds s'
    if le ops s'.shift tolerance then ok s' else more
