-- ===== src/Kmeans/Fit/Centres.antt =====
-- The centres that `_initial_centroids` of web/services/kmeans.py chooses.
use retail_segmentation.Prelude.{
  ℕ, zero, suc, ◌+◌, ◌-◌, ◌≤◌, ◌<◌, ◌≡◌, refl, Bool, true, false, not, Option, none, some, List, [],
  ◌∷◌, length, get_or, ok, range, range_from, find_first, arith, All, All-append, length-append,
  length-map, inl, inr, Bool-cases, Option-cases, ◌∙◌, ap,
}
use Prim.Native.Nat.{min}
use mathlib.Core.Logic.{◌⊎◌}
use retail_segmentation.Floats.{Float, FloatOps, le}
use retail_segmentation.Kmeans.Domain.{Point}
use retail_segmentation.Kmeans.Refill.{origin}
use retail_segmentation.Kmeans.Refill.Counting.{count, total-le-length, total-ge}
use retail_segmentation.Kmeans.Refill.Donor.{get_or-All}
use retail_segmentation.Kmeans.Fit.{
  is_in, pick_from, Seeding, nearer, take_centre, last_of, seed_one, seed_all, seeded_from,
  initial_centroids,
}

find_first-none :
    (p : ℕ → Bool) (i m c : ℕ)
    → find_first p (range_from i m) ≡ none
    → i ≤ c
    → c < i + m
    → p c ≡ false
find_first-none p i zero c h l u = absurd (omega arith)
find_first-none p i (suc m) c h l u = elim (Bool-cases (p i)) [
  | inl here ↦ cc
  | inr absent ↦ elim (first_or_later i c l) [
    | inl same ↦ rw (← same) absent
    | inr later ↦ find_first-none p (suc i) m c (rw absent at h) later (omega arith)
  ]
]
  where
    first_or_later : (a b : ℕ) → a ≤ b → (a ≡ b) ⊎ (suc a ≤ b)
    first_or_later a b le_ab = omega arith

find_first-lt : (p : ℕ → Bool) (i m c : ℕ) → find_first p (range_from i m) ≡ some c → c < i + m
find_first-lt p i zero c h = cc
find_first-lt p i (suc m) c h = ground (arith, find_first-lt p (suc i) m c)

is_in-count : (xs : List ℕ) (c : ℕ) → is_in xs c ≡ true → 1 ≤ count c xs
is_in-count [] c h = cc
is_in-count (x ∷ xs) c h = ground (arith, is_in-count xs c)

-- Fewer positions taken than there are leave one to take.
free_position :
    (chosen : List ℕ) (n : ℕ)
    → length chosen < n
    → (i : ℕ) × (find_first (λ j. not (is_in chosen j)) (range n) ≡ some i) × (i < n)
free_position chosen n h = elim (Option-cases (find_first (λ j. not (is_in chosen j)) (range n))) [
  | inr (i, found) ↦
      (i, found, omega (arith, find_first-lt (λ j. not (is_in chosen j)) 0 n i found))
  | inl missing ↦ absurd (
      omega (
        arith,
        total-le-length n chosen,
        total-ge n chosen (λ c l. is_in-count chosen c (
            ground (
              arith,
              find_first-none (λ j. not (is_in chosen j)) 0 n c missing (omega arith) (omega arith),
            ))),
      ))
]

module _ (ops : FloatOps) where
  pick_from-lt :
      (target : Float) (index : ℕ) (weights : List Float) (running : Float) (pick : Option ℕ)
      (n : ℕ)
      → index + length weights ≤ n
      → ((j : ℕ) → pick ≡ some j → j < n)
      → (j : ℕ) → pick_from ops target index weights running pick ≡ some j
      → j < n
  unfolding pick_from
  pick_from-lt target index [] running pick n l v = v
  pick_from-lt target index (w ∷ weights) running pick n l v =
      elim (Bool-cases (le ops w ops.zero)) [
        | inl skip ↦
            rw skip (pick_from-lt target (suc index) weights running pick n (omega arith) v)
        | inr positive ↦ elim (Bool-cases (le ops target (ops.add running w))) [
          | inl reached ↦
              rw (positive, reached) (λ j e. let e' : index ≡ j = ground arith in omega arith)
          | inr before ↦
              rw (positive, before)
                (pick_from-lt target (suc index) weights (ops.add running w) (some index) n
                  (omega arith) (λ j e. let e' : index ≡ j = ground arith in omega arith))
        ]
      ]

  length-nearer :
      (ds : List Float) (points : List Point) (c : Point)
      → length ds ≡ length points
      → length (nearer ops ds points c) ≡ length ds
  unfolding nearer
  length-nearer [] [] c h = refl
  length-nearer [] (p ∷ points) c h = refl
  length-nearer (d ∷ ds) [] c h = absurd (omega arith)
  length-nearer (d ∷ ds) (p ∷ points) c h = ap suc (length-nearer ds points c (omega arith))

  module _ (Good : Point → Type 0) (points : List Point) (good : All Good points) where
    -- The invariant of the `while`, with `m` centres found.
    record IsSeeded (m : ℕ) (s : Seeding) : Type 0 where
      width : length s.centres ≡ m
      taken : length s.chosen ≡ m
      weights : length s.nearest_squared ≡ length points
      goods : All Good s.centres

    take_centre-IsSeeded :
        (m pick draws : ℕ) (s : Seeding)
        → pick < length points
        → IsSeeded m s
        → IsSeeded (suc m) (take_centre ops points pick draws s)
    take_centre-IsSeeded m pick draws s l inv = record {
      width =
          omega
            (arith, length-append {0} s.centres (get_or points pick (origin ops) ∷ []), inv.width);
      taken = ap suc inv.taken;
      weights =
          length-nearer s.nearest_squared points (get_or points pick (origin ops)) inv.weights
          ∙ inv.weights;
      goods =
          All-append Good s.centres (get_or points pick (origin ops) ∷ []) inv.goods
            (get_or-All Good points pick (origin ops) good l, tt);
    }

    last_of-lt :
        (pick : Option ℕ)
        → 0 < length points
        → ((j : ℕ) → pick ≡ some j → j < length points)
        → last_of points pick < length points
    last_of-lt none pos v = omega arith
    last_of-lt (some i) pos v = v i refl

    seed_one-IsSeeded :
        (draw : ℕ → Float) (m : ℕ) (s : Seeding)
        → m < length points
        → IsSeeded m s
        → (s' : Seeding) × (seed_one ops draw points s ≡ ok s') × IsSeeded (suc m) s'
    unfolding seed_one
    seed_one-IsSeeded draw m s l inv =
        let weight = ops.sum s.nearest_squared in
        let pick =
          pick_from ops (ops.mul (draw s.draws) weight) 0 s.nearest_squared ops.zero none in
        elim (Bool-cases (ops.lt ops.zero weight)) [
          | inl positive ↦ (
            take_centre ops points (last_of points pick) (s.draws + 1) s,
            rw positive,
            take_centre-IsSeeded m (last_of points pick) (s.draws + 1) s
                (last_of-lt pick (omega arith) (
                  pick_from-lt (ops.mul (draw s.draws) weight) 0 s.nearest_squared ops.zero none
                    (length points) (omega (arith, inv.weights)) (λ j e. cc)))
                inv,
          )
          | inr zero_weight ↦
              let (i, found, i_lt) =
                free_position s.chosen (length points) (omega (arith, inv.taken)) in
              (
                take_centre ops points i s.draws s,
                rw (zero_weight, found),
                take_centre-IsSeeded m i s.draws s i_lt inv,
              )
        ]

    seed_all-IsSeeded :
        (draw : ℕ → Float) (rounds m : ℕ) (s : Seeding)
        → m + rounds ≤ length points
        → IsSeeded m s
        → (s' : Seeding) × (seed_all ops draw points rounds s ≡ ok s') × IsSeeded (m + rounds) s'
    unfolding seed_all
    seed_all-IsSeeded draw zero m s l inv = let e : m + 0 ≡ m = omega arith in (s, refl, rw e inv)
    seed_all-IsSeeded draw (suc rounds) m s l inv =
        let (s', here, inv') = seed_one-IsSeeded draw m s (omega arith) inv in
        let (t, there, inv'') = seed_all-IsSeeded draw rounds (suc m) s' (omega arith) inv' in
        let e : m + suc rounds ≡ suc m + rounds = omega arith in (t, rw (here, there), rw e inv'')

    pub initial_centroids_ok :
        (draw : ℕ → Float) (k : ℕ)
        → 1 ≤ k
        → k ≤ length points
        → (cs : List Point) × (initial_centroids ops draw points k ≡ ok cs)
          × (length cs ≡ k)
          × All Good cs
    unfolding initial_centroids
    initial_centroids_ok draw k pos enough =
        let first =
          min (ops.trunc (ops.mul (draw 0) (ops.of_int (length points)))) (length points - 1) in
        let (s, ran, inv) =
          seed_all-IsSeeded draw (k - 1) 1 (seeded_from ops points first) (omega arith) (record {
            width = refl;
            taken = refl;
            weights = length-map _ points;
            goods = (get_or-All Good points first (origin ops) good (omega arith), tt);
          }) in
        (s.centres, rw ran, omega (arith, inv.width), inv.goods)
