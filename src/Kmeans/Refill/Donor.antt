-- ===== src/Kmeans/Refill/Donor.antt =====
-- The search for a donor in `refill_empty_clusters` of web/services/kmeans.py.
use retail_segmentation.Prelude.{
  ℕ, zero, suc, ◌+◌, ◌≤◌, ◌<◌, ◌≡◌, ◌≢◌, true, ◌&&◌, not, Option, none, some, List, [], ◌∷◌, length,
  get_or, ltb, arith, All, inl, inr, Bool-cases, ap, ◌∙◌,
}
use retail_segmentation.Floats.{Float, FloatOps}
use retail_segmentation.Kmeans.Domain.{Point}
use retail_segmentation.Kmeans.Assign.{squared}
use retail_segmentation.Kmeans.Refill.{size_of, origin, donor_from}

pub get_or-All :
    {A : Type 0} (P : A → Type 0) (xs : List A) (i : ℕ) (d : A)
    → All P xs
    → i < length xs
    → P (get_or xs i d)
get_or-All P [] i d h l = absurd (omega arith)
get_or-All P (x ∷ xs) zero d h l = h.0
get_or-All P (x ∷ xs) (suc i) d h l = get_or-All P xs i d h.1 (omega arith)

module _ (ops : FloatOps) (sizes : List ℕ) (centroids : List Point) where
  -- Once there is a donor there is one at the end.
  donor_from-some :
      (index : ℕ) (points : List Point) (assignments : List ℕ) (j : ℕ) (farthest : Float)
      → donor_from ops sizes centroids index points assignments (some j) farthest ≢ none
  unfolding donor_from
  donor_from-some index [] assignments j farthest = λ e. cc
  donor_from-some index (p ∷ points) [] j farthest = λ e. cc
  donor_from-some index (p ∷ points) (a ∷ assignments) j farthest =
      elim (Bool-cases (
        not (ltb (size_of sizes a) 2)
        && ops.lt farthest (squared ops p (get_or centroids a (origin ops))))) [
          | inl farther ↦ rw farther (donor_from-some (suc index) points assignments index _)
          | inr nearer ↦ rw nearer (donor_from-some (suc index) points assignments j farthest)
        ]

  -- A donor found is a customer of a cluster of two or more.
  pub donor_from-valid :
      (all : List ℕ) (index : ℕ) (points : List Point) (assignments : List ℕ) (donor : Option ℕ)
      (farthest : Float)
      → ((t : ℕ)
          → t < length assignments
          → (get_or assignments t 0 ≡ get_or all (index + t) 0) × (index + t < length all))
      → ((j : ℕ) → donor ≡ some j → (j < length all) × (2 ≤ size_of sizes (get_or all j 0)))
      → (j : ℕ) → donor_from ops sizes centroids index points assignments donor farthest ≡ some j
      → (j < length all) × (2 ≤ size_of sizes (get_or all j 0))
  unfolding donor_from
  donor_from-valid all index [] assignments donor farthest same v = v
  donor_from-valid all index (p ∷ points) [] donor farthest same v = v
  donor_from-valid all index (p ∷ points) (a ∷ assignments) donor farthest same v =
      let next : (t : ℕ)
          → t < length assignments
          → (get_or assignments t 0 ≡ get_or all (suc index + t) 0) × (suc index + t < length all) =
        λ t l.
          let s = same (suc t) (omega arith) in
          let q : index + suc t ≡ suc index + t = omega arith in
          (s.0 ∙ ap (λ i. get_or all i 0) q, omega (arith, s.1)) in
      let here = same 0 (omega arith) in
      let i0 : index + 0 ≡ index = omega arith in
      let head : a ≡ get_or all index 0 = here.0 ∙ ap (λ i. get_or all i 0) i0 in
      elim (Bool-cases (
        not (ltb (size_of sizes a) 2)
        && ops.lt farthest (squared ops p (get_or centroids a (origin ops))))) [
          | inl farther ↦ rw farther (
              donor_from-valid all (suc index) points assignments (some index) _ next (λ j e.
                let e' : index ≡ j = ground arith in
                rw (← e') (omega (arith, here.1), rw (← head) (ground arith))))
          | inr nearer ↦
              rw nearer (donor_from-valid all (suc index) points assignments donor farthest next v)
        ]

  module _ (Good : Point → Type 0)
      (measured : (p q : Point) → Good p → Good q → ops.lt ops.minus_one (squared ops p q) ≡ true)
      (good_centroids : All Good centroids) where
    -- With no donor at the end no cluster of two or more was met.
    pub donor_from-none :
        (index : ℕ) (points : List Point) (assignments : List ℕ)
        → All Good points
        → All (λ a. a < length centroids) assignments
        → length assignments ≤ length points
        → donor_from ops sizes centroids index points assignments none ops.minus_one ≡ none
        → All (λ a. size_of sizes a ≤ 1) assignments
    unfolding donor_from
    donor_from-none index points [] g b l e = tt
    donor_from-none index [] (a ∷ assignments) g b l e = absurd (omega arith)
    donor_from-none index (p ∷ points) (a ∷ assignments) g b l e =
        let d =
          measured p (get_or centroids a (origin ops)) g.0
            (get_or-All Good centroids a (origin ops) good_centroids b.0) in
        elim (Bool-cases (ltb (size_of sizes a) 2)) [
          | inl small ↦ (
            ground arith,
            donor_from-none (suc index) points assignments g.1 b.1 (omega arith) (rw small at e),
          )
          | inr large ↦
              absurd (donor_from-some (suc index) points assignments index _ (rw (large, d) at e))
        ]
