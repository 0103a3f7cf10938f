-- ===== src/Kmeans/Fit/Total.antt =====
-- The result of `fit` of web/services/kmeans.py, for an input that its checks let through.
use mathlib.Core.Path.{subst}
use mathlib.Core.List.{zip}
use retail_segmentation.Prelude.{
  range, All-range_from, ℕ, suc, ◌≤◌, ◌<◌, ◌≡◌, refl, true, false, Option, List, [], ◌∷◌, map,
  length, if◌then◌else◌, ◌==◌, ltb, ok, arith, All, length-map, length-sort_by, All-sort_by,
  sort_by, inl, inr, ◌∙◌, sym, ap, ◌⊎◌, ℤ,
}
use retail_segmentation.Floats.{Float, FloatOps}
use retail_segmentation.Kmeans.Domain.{Point, Params, Fit}
use retail_segmentation.Kmeans.Assign.{nearest, nearest-lt}
use retail_segmentation.Kmeans.Refill.Counting.{count}
use retail_segmentation.Kmeans.Refill.Full.{refill_empty_clusters-IsFilled}
use retail_segmentation.Kmeans.Lloyd.Settled.{IsMeasured, lloyd_ok}
use retail_segmentation.Kmeans.Fit.{by_id, has_repeat, start, finished, fit_sorted, fit}
use retail_segmentation.Kmeans.Fit.Centres.{initial_centroids_ok}

-- A finished fit of `n` customers: there are `k` centroids, everyone is in one of the `k` clusters, no cluster is
-- empty, and the loop ended within its limit, by the tolerance unless it says otherwise.
pub record IsFinished (params : Params) (n : ℕ) (f : Fit) : Type 0 where
  pub named : length f.customer_ids ≡ n
  pub centred : length f.centroids ≡ params.k
  pub aligned : length f.assignments ≡ n
  pub in_range : All (λ a. a < params.k) f.assignments
  pub filled : All (λ c. 1 ≤ count c f.assignments) (range params.k)
  pub bounded : (1 ≤ f.iterations) × (f.iterations ≤ params.max_iterations)
  pub stopped : (f.converged ≡ true) ⊎ (f.iterations ≡ params.max_iterations)
  pub said : f.stopped_on ≡ (if f.converged then "tolerance" else "iteration_limit")

module _ (ops : FloatOps) (draw : ℤ → ℕ → Float)
    (silhouette : List Point → List ℕ → ℕ → ℤ → Option Float × Option ℕ) (Good : Point → Type 0)
    (measured : IsMeasured ops Good) where
  fit_sorted_ok :
      (params : Params) (ids : List ℕ) (points : List Point)
      → All Good points
      → 1 ≤ params.k
      → 1 ≤ params.max_iterations
      → length ids ≡ length points
      → params.k ≤ length points
      → (f : Fit) × (fit_sorted ops draw silhouette params ids points ≡ ok f)
        × IsFinished params (length points) f
  unfolding fit_sorted finished
  fit_sorted_ok params ids points good pos rounds e enough =
      let (cs, seeded, width, goods) =
        initial_centroids_ok ops Good points good (draw params.seed) params.k pos enough in
      let (s, ran, width', goods', most, grows, least, why) =
        lloyd_ok ops Good measured points good params.tolerance params.max_iterations
          (start ops draw silhouette cs) (omega arith) (omega arith) goods in
      let all_near : (ps : List Point)
          → All (λ a. a < length s.centroids) (map (λ p. nearest ops p s.centroids) ps) =
        near s.centroids (omega arith) in
      let last =
        refill_empty_clusters-IsFilled ops points s.centroids Good measured.above good goods'
          (omega arith) (map (λ p. nearest ops p s.centroids) points) (length-map _ points)
          (all_near points) in
      let k_eq : length s.centroids ≡ params.k = width' ∙ width in
      (
        finished ops draw silhouette params ids points s,
        rw (seeded, ran),
        record {
          named = e;
          centred = k_eq;
          aligned = last.aligned;
          in_range = rw k_eq at last.in_range;
          filled =
              All-range_from
                (λ c. 1 ≤ count c (finished ops draw silhouette params ids points s).assignments) 0
                params.k (λ c l u. last.filled c (omega arith));
          bounded = (omega (arith, least rounds), omega arith);
          stopped = elim why [ inl all_rounds ↦ inr (omega arith) | inr settled ↦ inl settled ];
          said = refl;
        },
      )
    where
      near :
          (cs : List Point)
          → 0 < length cs
          → (ps : List Point) → All (λ a. a < length cs) (map (λ p. nearest ops p cs) ps)
      near cs p [] = tt
      near cs p (q ∷ ps) = (nearest-lt ops q cs p, near cs p ps)

  length-zip :
      (ids : List ℕ) (points : List Point)
      → length ids ≡ length points
      → length (zip ids points) ≡ length points
  unfolding zip
  length-zip [] [] h = refl
  length-zip [] (p ∷ points) h = absurd (omega arith)
  length-zip (i ∷ ids) [] h = refl
  length-zip (i ∷ ids) (p ∷ points) h = ap suc (length-zip ids points (omega arith))

  All-zip :
      (ids : List ℕ) (points : List Point)
      → All Good points
      → All (λ (r : ℕ × Point). Good r.1) (zip ids points)
  unfolding zip
  All-zip [] points g = tt
  All-zip (i ∷ ids) [] g = tt
  All-zip (i ∷ ids) (p ∷ points) g = (g.0, All-zip ids points g.1)

  All-points :
      (rows : List (ℕ × Point))
      → All (λ (r : ℕ × Point). Good r.1) rows
      → All Good (map (λ r. r.1) rows)
  All-points [] h = tt
  All-points (r ∷ rows) h = (h.0, All-points rows h.1)

  -- With a point for each customer, no customer twice, at least as many customers as clusters, and k and the
  -- iteration limit at least 1, the fit returns whatever the generator draws: no division by zero, no
  -- exhausted search and no other error. Every customer is in a cluster, no cluster is empty, the iteration
  -- limit is kept, and the loop stopped by the tolerance or at that limit.
  pub fit_total :
      (ids : List ℕ) (points : List Point) (params : Params)
      → All Good points
      → 1 ≤ params.k
      → 1 ≤ params.max_iterations
      → length ids ≡ length points
      → has_repeat ids ≡ false
      → params.k ≤ length ids
      → (f : Fit) × (fit ops draw silhouette ids points params ≡ ok f)
        × IsFinished params (length points) f
  unfolding fit
  fit_total ids points params good pos rounds e r l =
      let rows = sort_by by_id (zip ids points) in
      let sorted_points = map (λ (x : ℕ × Point). x.1) rows in
      let t : (length ids == length points) ≡ true = ground arith in
      let u : ltb (length ids) params.k ≡ false = ground arith in
      let width : length sorted_points ≡ length points =
        length-map _ rows ∙ length-sort_by by_id (zip ids points) ∙ length-zip ids points e in
      let (f, ran, done) =
        fit_sorted_ok params (map (λ (x : ℕ × Point). x.0) rows) sorted_points
          (All-points rows (
            All-sort_by by_id (λ (x : ℕ × Point). Good x.1) (zip ids points)
              (All-zip ids points good)))
          pos rounds (length-map _ rows ∙ sym (length-map _ rows)) (omega arith) in
      (f, rw (t, r, u) ran, subst (λ n. IsFinished params n f) width done)
