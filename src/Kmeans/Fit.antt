-- ===== src/Kmeans/Fit.antt =====
-- `_initial_centroids`, `fit` and `fit_customers` of web/services/kmeans.py. The draws of the seeded
-- generator and the silhouette, a measure of the finished fit, are parameters.
mod Centres
pub mod Total
use Prim.Native.Nat.{min}
use mathlib.Core.List.{foldl, zip}
use retail_segmentation.Prelude.{
  ℕ, zero, suc, ◌+◌, ◌-◌, Bool, true, false, ◌&&◌, ◌||◌, not, Option, none, some, List, [], ◌∷◌,
  ◌++◌, map, length, get_or, if◌then◌else◌, ◌==◌, ltb, Result, ok, err, ◌>>=◌, ◌>>◌, raise_if,
  range, any, find_first, sort_by, ℤ,
}
use retail_segmentation.Floats.{Float, FloatOps, le}
use retail_segmentation.Kmeans.Domain.{
  Point, Params, Error, RawRfm, Fit, lengths_differ, customer_repeated, too_few_customers,
  stop_iteration,
}
use retail_segmentation.Kmeans.Normalise.{normalise}
use retail_segmentation.Kmeans.Assign.{squared}
use retail_segmentation.Kmeans.Refill.{origin, count_sizes, State}
use retail_segmentation.Kmeans.Lloyd.{Loop, assign, lloyd}

abbrev pub is_in : List ℕ → ℕ → Bool
is_in xs i = any (λ x. x == i) xs

-- The centres so far, the positions taken and each point's squared distance from its nearest centre,
-- and how many draws were made.
pub record Seeding : Type 0 where
  pub centres : List Point
  pub chosen : List ℕ
  pub nearest_squared : List Float
  pub draws : ℕ

-- A pick of -1 is the last point.
abbrev pub last_of : List Point → Option ℕ → ℕ
last_of points none = length points - 1
last_of points (some i) = i

abbrev pub pick_first : Option ℕ → Result Error ℕ
pick_first none = err stop_iteration
pick_first (some i) = ok i

module _ (ops : FloatOps) where
  -- The first position whose running weight reaches the target, or the last with a positive weight.
  pub pick_from : Float → ℕ → List Float → Float → Option ℕ → Option ℕ
  pick_from target index [] running pick = pick
  pick_from target index (weight ∷ weights) running pick =
      let skip = pick_from target (suc index) weights running pick in
      let running' = ops.add running weight in
      let more = pick_from target (suc index) weights running' (some index) in
      if le ops weight ops.zero then skip else if le ops target running' then some index else more

  abbrev lower : Float → Float → Float
  lower current other = if ops.lt other current then other else current

  pub nearer : List Float → List Point → Point → List Float
  nearer (d ∷ ds) (p ∷ points) centre = lower d (squared ops p centre) ∷ nearer ds points centre
  nearer _ _ centre = []

  -- Where no weight is above zero though their sum is, which no finite weights show, the code takes the last point
  -- by the index -1 and notes that index as chosen; here the last point's own is noted.
  abbrev pub take_centre : List Point → ℕ → ℕ → Seeding → Seeding
  take_centre points pick draws s =
      let centre = get_or points pick (origin ops) in
      record {
        centres = s.centres ++ centre ∷ [];
        chosen = pick ∷ s.chosen;
        nearest_squared = nearer s.nearest_squared points centre;
        draws = draws;
      }

  -- One round of the `while`: a weighted pick, or the first position not taken.
  pub seed_one : (ℕ → Float) → List Point → Seeding → Result Error Seeding
  unfolding pick_from nearer
  seed_one draw points s =
      let weight = ops.sum s.nearest_squared in
      let target = ops.mul (draw s.draws) weight in
      if ops.lt ops.zero weight
      then ok (
          take_centre points (last_of points (pick_from target 0 s.nearest_squared ops.zero none))
            (s.draws + 1) s)
      else (do
        pick ← pick_first (find_first (λ i. not (is_in s.chosen i)) (range (length points)))
        ok (take_centre points pick s.draws s))

  pub seed_all : (ℕ → Float) → List Point → ℕ → Seeding → Result Error Seeding
  unfolding seed_one
  seed_all draw points zero s = ok s
  seed_all draw points (suc rounds) s = do
    s' ← seed_one draw points s
    seed_all draw points rounds s'

  abbrev pub seeded_from : List Point → ℕ → Seeding
  seeded_from points first = record {
    centres = get_or points first (origin ops) ∷ [];
    chosen = first ∷ [];
    nearest_squared = map (λ p. squared ops p (get_or points first (origin ops))) points;
    draws = 1;
  }

  -- k-means++ over at least one point.
  unfoldable pub initial_centroids : (ℕ → Float) → List Point → ℕ → Result Error (List Point)
  unfolding seed_all
  initial_centroids draw points k = do
    let first = min (ops.trunc (ops.mul (draw 0) (ops.of_int (length points)))) (length points - 1)
    s ← seed_all draw points (k - 1) (seeded_from points first)
    ok s.centres

abbrev pub has_repeat : List ℕ → Bool
has_repeat [] = false
has_repeat (x ∷ xs) = is_in xs x || has_repeat xs

abbrev pub by_id : ℕ × Point → ℕ × Point → Bool
by_id a b = ltb a.0 b.0

module _ (ops : FloatOps) (draw : ℤ → ℕ → Float)
    (silhouette : List Point → List ℕ → ℕ → ℤ → Option Float × Option ℕ) where
  abbrev pub start : List Point → Loop
  start centroids = record {
    centroids = centroids;
    shift = ops.infinity;
    iterations = 0;
    events = 0;
  }

  pub inertia : List Point → List Point → List ℕ → List Float
  inertia centroids (p ∷ points) (a ∷ assignments) =
      squared ops p (get_or centroids a (origin ops)) ∷ inertia centroids points assignments
  inertia centroids points assignments = []

  -- What `fit` makes of the loop's result: one more assignment step, and the measures.
  pub finished : Params → List ℕ → List Point → Loop → Fit
  unfolding inertia count_sizes
  finished params ids points s =
      let converged = le ops s.shift params.tolerance in
      let last = assign ops points s.centroids in
      let (score, sample) = silhouette points last.assignments params.k params.seed in
      record {
        params = params;
        customer_ids = ids;
        points = points;
        assignments = last.assignments;
        centroids = s.centroids;
        iterations = s.iterations;
        converged = converged;
        stopped_on = if converged then "tolerance" else "iteration_limit";
        final_shift = s.shift;
        empty_cluster_events = s.events + last.moved;
        inertia = ops.fsum (inertia s.centroids points last.assignments);
        silhouette = score;
        cluster_sizes = sort_by (λ a b. ltb b a) (count_sizes params.k last.assignments);
        silhouette_sample = sample;
      }

  -- The fit of customers in the order of their ids.
  pub fit_sorted : Params → List ℕ → List Point → Result Error Fit
  unfolding initial_centroids finished
  fit_sorted params ids points = do
    centroids ← initial_centroids ops (draw params.seed) points params.k
    s ← lloyd ops points params.tolerance params.max_iterations (start centroids)
    ok (finished params ids points s)

  unfoldable pub fit : List ℕ → List Point → Params → Result Error Fit
  unfolding fit_sorted
  fit customer_ids points params =
      let rows = sort_by by_id (zip customer_ids points) in
      raise_if (not (length customer_ids == length points)) lengths_differ
      >> raise_if (has_repeat customer_ids) customer_repeated
      >> raise_if (ltb (length customer_ids) params.k) too_few_customers
      >>= λ _. fit_sorted params (map (λ r. r.0) rows) (map (λ r. r.1) rows)

  unfoldable pub fit_customers : List RawRfm → Params → Result Error Fit
  unfolding fit
  fit_customers rows params = fit (map (λ r. r.customer_id) rows) (normalise ops rows) params
