-- ===== src/Kmeans/Refill/Full.antt =====
-- The clusters and their sizes after `refill_empty_clusters` of web/services/kmeans.py.
use retail_segmentation.Prelude.{
  ℕ, zero, suc, ◌+◌, ◌-◌, ◌≤◌, ◌<◌, ◌≡◌, true, none, List, [], ◌∷◌, length, get_or, set, ◌==◌,
  arith, All, inl, inr, Bool-cases, Option-cases, ◌⊎◌, ◌∙◌, range_from, range, All-range_from,
}
use retail_segmentation.Floats.{FloatOps}
use retail_segmentation.Kmeans.Domain.{Point}
use retail_segmentation.Kmeans.Assign.{squared}
use retail_segmentation.Kmeans.Refill.{
  size_of, donor_from, State, move, refill_one, refill_all, refill_empty_clusters,
}
use retail_segmentation.Kmeans.Refill.Counting.{
  count, count-set, get_or-set, length-set, Agrees, count_sizes-Agrees, total-eq-length, total-lt,
}
use retail_segmentation.Kmeans.Refill.Donor.{donor_from-valid, donor_from-none, get_or-All}

All-set : (P : ℕ → Type 0) (xs : List ℕ) (i v : ℕ) → All P xs → P v → All P (set xs i v)
All-set P [] i v h p = tt
All-set P (x ∷ xs) zero v h p = (p, h.1)
All-set P (x ∷ xs) (suc i) v h p = (h.0, All-set P xs i v h.1 p)

All-count : (P : ℕ → Type 0) (c : ℕ) (xs : List ℕ) → All P xs → 0 < count c xs → P c
All-count P c [] h l = absurd (omega arith)
All-count P c (x ∷ xs) h l = elim (Bool-cases (x == c)) [
  | inl same ↦ let e : x ≡ c = ground arith in rw (← e) h.0
  | inr other ↦ All-count P c xs h.1 (rw other at l)
]

at_most_one :
    (k : ℕ) (sizes xs : List ℕ)
    → Agrees k sizes xs
    → All (λ a. size_of sizes a ≤ 1) xs
    → (c : ℕ) → c < k
    → count c xs ≤ 1
at_most_one k sizes xs agrees h c l = elim (positive (count c xs)) [
  | inl z ↦ omega arith
  | inr p ↦ omega (arith, All-count (λ a. size_of sizes a ≤ 1) c xs h p, agrees.at c l)
]
  where
    positive : (n : ℕ) → (n ≡ 0) ⊎ (0 < n)
    positive n = omega arith

-- The invariant of the outer loop, once the clusters below `e` have been seen to.
pub record IsFilled (k n e : ℕ) (s : State) : Type 0 where
  pub agrees : Agrees k s.sizes s.assignments
  pub in_range : All (λ a. a < k) s.assignments
  pub aligned : length s.assignments ≡ n
  pub filled : (c : ℕ) → c < e → 1 ≤ count c s.assignments

-- What the refill is for: no cluster is empty, and the sizes are those of the clusters.
pub record IsFull (k n : ℕ) (s : State) : Type 0 where
  pub aligned : length s.assignments ≡ n
  pub in_range : All (λ a. a < k) s.assignments
  pub filled : All (λ c. 1 ≤ count c s.assignments) (range k)
  pub sized : All (λ c. size_of s.sizes c ≡ count c s.assignments) (range k)

move-IsFilled :
    (k n e j : ℕ) (s : State)
    → e < k
    → IsFilled k n e s
    → count e s.assignments ≡ 0
    → j < length s.assignments
    → 2 ≤ size_of s.sizes (get_or s.assignments j 0)
    → IsFilled k n (suc e) (move e j s)
unfolding move
move-IsFilled k n e j s l inv empty here two =
    let a = get_or s.assignments j 0 in
    let a_lt : a < k = get_or-All (λ x. x < k) s.assignments j 0 inv.in_range here in
    let held = inv.agrees.at a a_lt in
    record {
      agrees = record {
        width =
            length-set (set s.sizes a (size_of s.sizes a - 1)) e 1
            ∙ length-set s.sizes a _
            ∙ inv.agrees.width;
        at = λ c lc. grind (
          arith,
          get_or-set (set s.sizes a (size_of s.sizes a - 1)) e c 1 0,
          get_or-set s.sizes a c (size_of s.sizes a - 1) 0,
          length-set s.sizes a (size_of s.sizes a - 1),
          inv.agrees.width,
          inv.agrees.at c lc,
          held,
          count-set c s.assignments j e here,
        );
      };
      in_range = All-set (λ x. x < k) s.assignments j e inv.in_range l;
      aligned = length-set s.assignments j e ∙ inv.aligned;
      filled = λ c lc. grind (arith, count-set c s.assignments j e here, inv.filled c, held);
    }

module _ (ops : FloatOps) (points centroids : List Point) (Good : Point → Type 0)
    (measured : (p q : Point) → Good p → Good q → ops.lt ops.minus_one (squared ops p q) ≡ true)
    (good_points : All Good points) (good_centroids : All Good centroids)
    (enough : length centroids ≤ length points) where
  refill_one-IsFilled :
      (e : ℕ) (s : State)
      → e < length centroids
      → IsFilled (length centroids) (length points) e s
      → IsFilled (length centroids) (length points) (suc e) (refill_one ops points centroids e s)
  unfolding refill_one
  refill_one-IsFilled e s l inv = elim (Bool-cases (size_of s.sizes e == 0)) [
    | inr held ↦ rw held (record {
      agrees = inv.agrees;
      in_range = inv.in_range;
      aligned = inv.aligned;
      filled = λ c lc. grind (arith, inv.filled c, inv.agrees.at e l);
    })
    | inl empty ↦
        let none_in : count e s.assignments ≡ 0 = ground (arith, inv.agrees.at e l) in
        elim (Option-cases
          (donor_from ops s.sizes centroids 0 points s.assignments none ops.minus_one)) [
            | inl missing ↦
                let small =
                  donor_from-none ops s.sizes centroids Good measured good_centroids 0 points
                    s.assignments good_points inv.in_range (omega (arith, inv.aligned)) missing in
                absurd (
                  omega (
                    arith,
                    total-lt (length centroids) e s.assignments l none_in
                        (at_most_one (length centroids) s.sizes s.assignments inv.agrees small),
                    total-eq-length (length centroids) s.assignments inv.in_range,
                    inv.aligned,
                  ))
            | inr (j, found) ↦
                let v =
                  donor_from-valid ops s.sizes centroids s.assignments 0 points s.assignments none
                    ops.minus_one (λ t lt. let z : 0 + t ≡ t = omega arith in (rw z, omega arith))
                    (λ i h. cc) j found in
                rw (empty, found)
                  (move-IsFilled (length centroids) (length points) e j s l inv none_in v.0 v.1)
          ]
  ]

  refill_all-IsFilled :
      (e m : ℕ) (s : State)
      → e + m ≡ length centroids
      → IsFilled (length centroids) (length points) e s
      → IsFilled
          (length centroids)
          (length points)
          (length centroids)
          (refill_all ops points centroids (range_from e m) s)
  unfolding refill_all
  refill_all-IsFilled e zero s h inv = let h' : e ≡ length centroids = omega arith in rw h' at inv
  refill_all-IsFilled e (suc m) s h inv =
      refill_all-IsFilled (suc e) m (refill_one ops points centroids e s) (omega arith)
        (refill_one-IsFilled e s (omega arith) inv)

  -- From any assignment of at least as many customers as clusters, the refill leaves every cluster
  -- holding a customer, every customer in a cluster, and the sizes in step with the assignments.
  pub refill_empty_clusters-IsFilled :
      (assignments : List ℕ)
      → length assignments ≡ length points
      → All (λ a. a < length centroids) assignments
      → IsFilled
          (length centroids)
          (length points)
          (length centroids)
          (refill_empty_clusters ops points assignments centroids)
  unfolding refill_empty_clusters
  refill_empty_clusters-IsFilled assignments h b =
      refill_all-IsFilled 0 (length centroids) _ (omega arith) (record {
        agrees = count_sizes-Agrees (length centroids) assignments b;
        in_range = b;
        aligned = h;
        filled = λ c l. absurd (omega arith);
      })

  -- From any assignment of at least as many customers as clusters to those clusters, the refill leaves every
  -- customer in a cluster, a customer in every cluster, and each counted size equal to the number of the
  -- cluster's customers.
  pub refill_empty_clusters-IsFull :
      (assignments : List ℕ)
      → length assignments ≡ length points
      → All (λ a. a < length centroids) assignments
      → IsFull
          (length centroids)
          (length points)
          (refill_empty_clusters ops points assignments centroids)
  refill_empty_clusters-IsFull assignments h b =
      let k = length centroids in
      let s = refill_empty_clusters ops points assignments centroids in
      let inv = refill_empty_clusters-IsFilled assignments h b in
      record {
        aligned = inv.aligned;
        in_range = inv.in_range;
        filled =
            All-range_from (λ c. 1 ≤ count c s.assignments) 0 k
              (λ c l u. inv.filled c (omega arith));
        sized =
            All-range_from (λ c. size_of s.sizes c ≡ count c s.assignments) 0 k
              (λ c l u. inv.agrees.at c (omega arith));
      }
