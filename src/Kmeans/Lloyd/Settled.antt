-- ===== src/Kmeans/Lloyd/Settled.antt =====
-- The end of the loop of `fit` of web/services/kmeans.py.
use retail_segmentation.Prelude.{
  ℕ, zero, suc, ◌+◌, ◌≤◌, ◌<◌, ◌≡◌, refl, true, List, [], ◌∷◌, map, length, ok, range_from, arith,
  All, length-map, inl, inr, Bool-cases, ◌⊎◌, ◌∙◌,
}
use retail_segmentation.Floats.{Float, FloatOps, le}
use retail_segmentation.Kmeans.Domain.{Point}
use retail_segmentation.Kmeans.Assign.{squared, nearest, nearest-lt}
use retail_segmentation.Kmeans.Refill.{origin}
use retail_segmentation.Kmeans.Refill.Counting.{count}
use retail_segmentation.Kmeans.Refill.Full.{refill_empty_clusters-IsFilled}
use retail_segmentation.Kmeans.Lloyd.{
  tally_cluster, plus, mean, means_of, means, assign, moved_to, Loop, round, lloyd,
}

-- What the loop needs of the arithmetic on the values that it meets: the square of a distance is above
-- -1, and the mean of a cluster of such points is such a point.
pub record IsMeasured (ops : FloatOps) (Good : Point → Type 0) : Type 0 where
  pub above : (p q : Point) → Good p → Good q → ops.lt ops.minus_one (squared ops p q) ≡ true
  pub averages :
      (points : List Point) (assignments : List ℕ) (c : ℕ) (m : Point)
      → All Good points
      → mean ops (tally_cluster ops c points assignments (origin ops) 0) ≡ ok m
      → Good m

module _ (ops : FloatOps) where
  tally_cluster-count :
      (c : ℕ) (points : List Point) (assignments : List ℕ) (sum : Point) (n : ℕ)
      → length assignments ≡ length points
      → (tally_cluster ops c points assignments sum n).1 ≡ n + count c assignments
  unfolding tally_cluster
  tally_cluster-count c [] [] sum n h = omega arith
  tally_cluster-count c [] (a ∷ assignments) sum n h = absurd (omega arith)
  tally_cluster-count c (p ∷ points) [] sum n h = absurd (omega arith)
  tally_cluster-count c (p ∷ points) (a ∷ assignments) sum n h = ground (
    arith,
    tally_cluster-count c points assignments (plus ops sum p) (suc n),
    tally_cluster-count c points assignments sum n,
  )

  mean_ok : (t : Point × ℕ) → 0 < t.1 → (m : Point) × (mean ops t ≡ ok m)
  unfolding mean
  mean_ok (sum, zero) h = absurd (omega arith)
  mean_ok (sum, suc n) h = (_, refl)

  module _ (Good : Point → Type 0) (measured : IsMeasured ops Good) (points : List Point)
      (good : All Good points) where
    means_of-ok :
        (assignments : List ℕ) (i k : ℕ)
        → length assignments ≡ length points
        → ((c : ℕ) → c < i + k → 1 ≤ count c assignments)
        → (ms : List Point) × (means_of ops points assignments (range_from i k) ≡ ok ms)
          × (length ms ≡ k)
          × All Good ms
    unfolding means_of
    means_of-ok assignments i zero h f = ([], refl, refl, tt)
    means_of-ok assignments i (suc k) h f =
        let t = tally_cluster-count i points assignments (origin ops) 0 h in
        let (m, here) =
          mean_ok (tally_cluster ops i points assignments (origin ops) 0)
            (omega (arith, t, f i (omega arith))) in
        let (ms, there, width, goods) =
          means_of-ok assignments (suc i) k h (λ c l. f c (omega arith)) in
        (
          m ∷ ms,
          rw (here, there),
          omega (arith, width),
          (measured.averages points assignments i m good here, goods),
        )

    -- A round of good centroids, no more of them than points, succeeds and keeps their number.
    round_ok :
        (s : Loop)
        → 0 < length s.centroids
        → length s.centroids ≤ length points
        → All Good s.centroids
        → (s' : Loop) × (round ops points s ≡ ok s')
          × (length s'.centroids ≡ length s.centroids)
          × All Good s'.centroids
          × (s'.iterations ≡ s.iterations + 1)
    unfolding round means
    round_ok s pos enough goods =
        let chosen = map (λ p. nearest ops p s.centroids) points in
        let filled =
          refill_empty_clusters-IsFilled ops points s.centroids Good measured.above good goods
            enough chosen (length-map _ points) (all_near points) in
        let (ms, there, width, good') =
          means_of-ok (assign ops points s.centroids).assignments 0 (length s.centroids)
            filled.aligned (λ c l. filled.filled c (omega arith)) in
        (moved_to ops points s ms, rw there, width, good', refl)
      where
        all_near :
            (ps : List Point)
            → All (λ a. a < length s.centroids) (map (λ p. nearest ops p s.centroids) ps)
        all_near [] = tt
        all_near (p ∷ ps) = (nearest-lt ops p s.centroids pos, all_near ps)

    -- The loop returns: with no division by zero, as many centroids as it began with, after at least one
    -- round and at most `rounds`, and before the last only because the movement was within tolerance.
    pub lloyd_ok :
        (tolerance : Float) (rounds : ℕ) (s : Loop)
        → 0 < length s.centroids
        → length s.centroids ≤ length points
        → All Good s.centroids
        → (s' : Loop) × (lloyd ops points tolerance rounds s ≡ ok s')
          × (length s'.centroids ≡ length s.centroids)
          × All Good s'.centroids
          × (s'.iterations ≤ s.iterations + rounds)
          × (s.iterations ≤ s'.iterations)
          × (0 < rounds → s.iterations < s'.iterations)
          × ((s'.iterations ≡ s.iterations + rounds) ⊎ (le ops s'.shift tolerance ≡ true))
    unfolding lloyd
    lloyd_ok tolerance zero s pos enough goods = (
      s,
      refl,
      refl,
      goods,
      omega arith,
      omega arith,
      λ h. absurd (omega arith),
      inl (omega arith),
    )
    lloyd_ok tolerance (suc rounds) s pos enough goods =
        let (s', ran, width, good', once) = round_ok s pos enough goods in
        elim (Bool-cases (le ops s'.shift tolerance)) [
          | inl settled ↦ (
            s',
            rw (ran, settled),
            width,
            good',
            omega arith,
            omega arith,
            λ h. omega arith,
            inr settled,
          )
          | inr moving ↦
              let (t, ran', width', good'', most, grows, least, why) =
                lloyd_ok tolerance rounds s' (omega arith) (omega arith) good' in
              (
                t,
                rw (ran, moving) ran',
                width' ∙ width,
                good'',
                omega arith,
                omega arith,
                λ h. omega arith,
                elim why [ inl e ↦ inl (omega arith) | inr e ↦ inr e ],
              )
        ]
