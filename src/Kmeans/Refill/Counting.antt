-- ===== src/Kmeans/Refill/Counting.antt =====
-- Counting the members of each cluster.
use mathlib.Core.List.{foldl}
use retail_segmentation.Prelude.{
  ℕ, zero, suc, ◌+◌, ◌≤◌, ◌<◌, ◌≡◌, refl, List, [], ◌∷◌, length, get_or, set, replicate,
  if◌then◌else◌, ltb, ◌==◌, arith, All, count_if, ap, ◌∙◌, ◌⊎◌, inl, inr,
}
use retail_segmentation.Kmeans.Refill.{size_of, bump, count_sizes}

-- How many customers are in a cluster.
abbrev pub count : ℕ → List ℕ → ℕ
count c = count_if (λ x. x == c)

module _ {A : Type 0} where
  pub get_or-set :
      (xs : List A) (i j : ℕ) (v d : A)
      → i < length xs
      → get_or (set xs i v) j d ≡ (if i == j then v else get_or xs j d)
  get_or-set [] i j v d h = absurd (omega arith)
  get_or-set (x ∷ xs) zero zero v d h = ground arith
  get_or-set (x ∷ xs) zero (suc j) v d h = ground arith
  get_or-set (x ∷ xs) (suc i) zero v d h = ground arith
  get_or-set (x ∷ xs) (suc i) (suc j) v d h = ground (arith, get_or-set xs i j v d)

  pub length-set : (xs : List A) (i : ℕ) (v : A) → length (set xs i v) ≡ length xs
  length-set [] i v = refl
  length-set (x ∷ xs) zero v = refl
  length-set (x ∷ xs) (suc i) v = ap suc (length-set xs i v)

  pub length-replicate : (n : ℕ) (a : A) → length (replicate n a) ≡ n
  length-replicate zero a = refl
  length-replicate (suc n) a = ap suc (length-replicate n a)

pub get_or-replicate : (n i : ℕ) → size_of (replicate n 0) i ≡ 0
get_or-replicate zero i = refl
get_or-replicate (suc n) zero = refl
get_or-replicate (suc n) (suc i) = get_or-replicate n i

-- Moving one customer from its cluster to `v`.
pub count-set :
    (c : ℕ) (xs : List ℕ) (i v : ℕ)
    → i < length xs
    → count c (set xs i v) + count c (get_or xs i 0 ∷ []) ≡ count c xs + count c (v ∷ [])
count-set c [] i v h = absurd (omega arith)
count-set c (x ∷ xs) zero v h = ground arith
count-set c (x ∷ xs) (suc i) v h = ground (arith, count-set c xs i v)

-- The clusters' sizes as a list agree with the counts.
pub record Agrees (k : ℕ) (sizes assignments : List ℕ) : Type 0 where
  pub width : length sizes ≡ k
  pub at : (c : ℕ) → c < k → size_of sizes c ≡ count c assignments

bump_all :
    (k : ℕ) (sizes : List ℕ) (xs : List ℕ)
    → length sizes ≡ k
    → All (λ x. x < k) xs
    → (length (foldl bump sizes xs) ≡ k)
      × ((c : ℕ) → c < k → size_of (foldl bump sizes xs) c ≡ size_of sizes c + count c xs)
bump_all k sizes [] w h = (w, λ c l. omega arith)
bump_all k sizes (x ∷ xs) w h =
    let ih = bump_all k (bump sizes x) xs (length-set sizes x _ ∙ w) h.1 in
    (ih.0, λ c l. ground (arith, ih.1 c, get_or-set sizes x c (size_of sizes x + 1) 0))

pub count_sizes-Agrees :
    (k : ℕ) (xs : List ℕ) → All (λ x. x < k) xs → Agrees k (count_sizes k xs) xs
unfolding count_sizes
count_sizes-Agrees k xs h =
    let b = bump_all k (replicate k 0) xs (length-replicate k 0) h in
    record { width = b.0; at = λ c l. omega (arith, b.1 c l, get_or-replicate k c) }

-- The sum of the counts of the first `k` clusters.
pub total : ℕ → List ℕ → ℕ
total zero xs = 0
total (suc k) xs = total k xs + count k xs

total-cons : (k x : ℕ) (xs : List ℕ) → total k (x ∷ xs) ≡ total k xs + (if ltb x k then 1 else 0)
unfolding total
total-cons zero x xs = ground arith
total-cons (suc k) x xs = ground (arith, total-cons k x xs)

pub total-eq-length : (k : ℕ) (xs : List ℕ) → All (λ x. x < k) xs → total k xs ≡ length xs
unfolding total
total-eq-length k [] h = empty k
  where
    empty : (j : ℕ) → total j [] ≡ 0
    empty zero = refl
    empty (suc j) = omega (arith, empty j)
total-eq-length k (x ∷ xs) h = ground (arith, total-cons k x xs, total-eq-length k xs)

pub total-le : (k : ℕ) (xs : List ℕ) → ((c : ℕ) → c < k → count c xs ≤ 1) → total k xs ≤ k
unfolding total
total-le zero xs h = omega arith
total-le (suc k) xs h = omega (arith, h k (omega arith), total-le k xs (λ c l. h c (omega arith)))

-- With an empty cluster among the first `k` and no more than one customer in each, fewer than `k`.
pub total-lt :
    (k e : ℕ) (xs : List ℕ)
    → e < k
    → count e xs ≡ 0
    → ((c : ℕ) → c < k → count c xs ≤ 1)
    → total k xs < k
unfolding total
total-lt zero e xs l z h = absurd (omega arith)
total-lt (suc k) e xs l z h = elim (ltb-cases e k) [
  | inl below ↦
      omega (arith, h k (omega arith), total-lt k e xs below z (λ c l'. h c (omega arith)))
  | inr same ↦
      let e' : e ≡ k = omega arith in
      let z' : count k xs ≡ 0 = rw (← e') z in
      omega (arith, total-le k xs (λ c l'. h c (omega arith)))
]
  where
    ltb-cases : (a b : ℕ) → (a < b) ⊎ (b ≤ a)
    ltb-cases a b = omega arith

pub total-le-length : (k : ℕ) (xs : List ℕ) → total k xs ≤ length xs
unfolding total
total-le-length k [] = none_at k
  where
    none_at : (j : ℕ) → total j [] ≤ 0
    none_at zero = omega arith
    none_at (suc j) = omega (arith, none_at j)
total-le-length k (x ∷ xs) = ground (arith, total-cons k x xs, total-le-length k xs)

pub total-ge : (k : ℕ) (xs : List ℕ) → ((c : ℕ) → c < k → 1 ≤ count c xs) → k ≤ total k xs
unfolding total
total-ge zero xs h = omega arith
total-ge (suc k) xs h = omega (arith, h k (omega arith), total-ge k xs (λ c l. h c (omega arith)))
