-- ===== src/Kmeans/Domain.antt =====
-- The parameters, the input rows and the result of a fit (web/services/kmeans.py).
use retail_segmentation.Prelude.{
  ℕ, Bool, ◌||◌, not, Option, List, [], ◌∷◌, String, ℤ, Result, ok, err, ◌>>=◌, ◌>>◌, raise_if, ltb,
  ◌==◌, if◌then◌else◌,
}
use retail_segmentation.Floats.{Float, FloatOps, is_finite}

pub data Error : Type 0 where
  k_too_small max_iterations_too_small bad_tolerance : Error
  lengths_differ customer_repeated too_few_customers : Error
  zero_division stop_iteration unequal_lengths : Error

-- A record rather than a class with defaults: a fit is given all four.
pub record Params : Type 0 where
  pub k : ℕ
  pub seed : ℤ
  pub max_iterations : ℕ
  pub tolerance : Float

abbrev pub Point : Type 0
Point = Float × Float × Float

pub record RawRfm : Type 0 where
  pub customer_id : ℕ
  pub last_purchase_at : ℕ
  pub frequency : ℕ
  pub monetary : ℕ

pub record Fit : Type 0 where
  pub params : Params
  pub customer_ids : List ℕ
  pub points : List Point
  pub assignments : List ℕ
  pub centroids : List Point
  pub iterations : ℕ
  pub converged : Bool
  pub stopped_on : String
  pub final_shift : Float
  pub empty_cluster_events : ℕ
  pub inertia : Float
  pub silhouette : Option Float
  pub cluster_sizes : List ℕ
  pub silhouette_sample : Option ℕ

-- `__post_init__`, for values that are whole numbers already.
unfoldable pub checked_params : FloatOps → Params → Result Error Params
checked_params ops p =
    raise_if (ltb p.k 1) k_too_small
    >> raise_if (ltb p.max_iterations 1) max_iterations_too_small
    >> raise_if (not (is_finite p.tolerance) || ops.lt p.tolerance ops.zero) bad_tolerance
    >>= λ _. ok p

-- The ids of the customers whose cluster is `cluster`; `zip` with `strict=True` raises where one sequence ends first.
unfoldable pub members_of : ℕ → List ℕ → List ℕ → Result Error (List ℕ)
members_of cluster [] [] = ok []
members_of cluster [] (a ∷ assignments) = err unequal_lengths
members_of cluster (i ∷ ids) [] = err unequal_lengths
members_of cluster (i ∷ ids) (a ∷ assignments) =
    members_of cluster ids assignments >>= λ rest. ok (if a == cluster then i ∷ rest else rest)

-- `KMeansFit.members`
unfoldable pub members : Fit → ℕ → Result Error (List ℕ)
unfolding members_of
members fit cluster = members_of cluster fit.customer_ids fit.assignments
