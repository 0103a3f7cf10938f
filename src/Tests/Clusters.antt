-- ===== src/Tests/Clusters.antt =====
-- Refilling, fitting and labelling, at concrete points.
use retail_segmentation.Prelude.{
  ℕ, ◌≡◌, refl, true, false, Option, none, some, List, [], ◌∷◌, String, ℤ, pos, ok, arith, All,
  range, inl,
}
use retail_segmentation.Floats.{Float}
use retail_segmentation.Kmeans.Domain.{Params, Point, Fit}
use retail_segmentation.Kmeans.Refill.{refill_empty_clusters}
use retail_segmentation.Kmeans.Refill.Full.{IsFull, refill_empty_clusters-IsFull}
use retail_segmentation.Kmeans.Fit.{fit, has_repeat}
use retail_segmentation.Kmeans.Fit.Total.{IsFinished, fit_total}
use retail_segmentation.Labels.Ranks.{Labelling, label_of, label_clusters}
use retail_segmentation.Labels.Order.{InVocabulary, label_clusters_total}
use retail_segmentation.Tests.Arithmetic.{whole, Any, whole-IsMeasured}

abbrev three_points : List Point
three_points = (1, 1, 1) ∷ (2, 2, 2) ∷ (9, 9, 9) ∷ []

abbrev two_centroids : List Point
two_centroids = (1, 1, 1) ∷ (40, 40, 40) ∷ []

refill_empty_clusters-IsFull_example :
    IsFull 2 3 (refill_empty_clusters whole three_points (0 ∷ 0 ∷ 0 ∷ []) two_centroids)
refill_empty_clusters-IsFull_example =
    refill_empty_clusters-IsFull whole three_points two_centroids Any whole-IsMeasured.above
      (tt, (tt, (tt, tt))) (tt, (tt, tt)) (omega arith) (0 ∷ 0 ∷ 0 ∷ []) refl
      (omega arith, (omega arith, (omega arith, tt)))

abbrev two_clusters : Params
two_clusters = record { k = 2; seed = pos 1; max_iterations = 5; tolerance = 1 }

abbrev steady : ℤ → ℕ → Float
steady seed n = 1

abbrev unmeasured : List Point → List ℕ → ℕ → ℤ → Option Float × Option ℕ
unmeasured points assignments k seed = (none, none)

no_repeat : has_repeat (5 ∷ 4 ∷ 6 ∷ []) ≡ false
no_repeat = refl

fit_total_example :
    (f : Fit) × (fit whole steady unmeasured (5 ∷ 4 ∷ 6 ∷ []) three_points two_clusters ≡ ok f)
    × IsFinished two_clusters 3 f
fit_total_example =
    fit_total whole steady unmeasured Any whole-IsMeasured (5 ∷ 4 ∷ 6 ∷ []) three_points
      two_clusters (tt, (tt, (tt, tt))) (omega arith) (omega arith) refl no_repeat (omega arith)

abbrev finished_fit : Fit
finished_fit = record {
  params = two_clusters;
  customer_ids = 4 ∷ 5 ∷ 6 ∷ [];
  points = three_points;
  assignments = 0 ∷ 0 ∷ 1 ∷ [];
  centroids = two_centroids;
  iterations = 1;
  converged = true;
  stopped_on = "tolerance";
  final_shift = 1;
  empty_cluster_events = 0;
  inertia = 1;
  silhouette = none;
  cluster_sizes = 2 ∷ 1 ∷ [];
  silhouette_sample = none;
}

abbrev tiers : List String
tiers = "Gold" ∷ "Silver" ∷ "Bronze" ∷ []

finished_fit-IsFinished : IsFinished two_clusters 3 finished_fit
finished_fit-IsFinished = record {
  named = refl;
  centred = refl;
  aligned = refl;
  in_range = (omega arith, (omega arith, (omega arith, tt)));
  filled = (omega arith, (omega arith, tt));
  bounded = (omega arith, omega arith);
  stopped = inl refl;
  said = refl;
}

label_clusters_total_example :
    (labels : Labelling) × (label_clusters whole finished_fit tiers ≡ ok labels)
    × All
        (λ c. (l : String) × (label_of labels c ≡ some l) × InVocabulary tiers l)
        (range two_clusters.k)
label_clusters_total_example =
    label_clusters_total whole two_clusters 3 finished_fit tiers finished_fit-IsFinished
      (omega arith) (omega arith)
