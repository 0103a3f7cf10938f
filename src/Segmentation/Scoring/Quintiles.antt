-- ===== src/Segmentation/Scoring/Quintiles.antt =====
-- The quintile scores of `_SCORE_AND_MATCH` of web/db/segments.py.
use native.Mathlib.Nat.{div-lt_iff_lt-mul}
use retail_segmentation.Prelude.{
  ℕ, zero, suc, ◌+◌, ◌-◌, ◌*◌, ◌/◌, ◌%◌, ◌≤◌, ◌<◌, ◌≡◌, true, List, [], ◌∷◌, arith, ltb, length,
  count_if, any, ◌==◌, Bool-cases, inl, inr, ltb→lt, div_mono,
}
use retail_segmentation.Segmentation.Scoring.{ntile, score}

-- What is left of a position after the larger buckets lies in the smaller ones.
rest_lt :
    (larger size i : ℕ)
    → larger < 5
    → i < 5 * size + larger
    → larger * (size + 1) ≤ i
    → i - larger * (size + 1) < (5 - larger) * size
rest_lt zero size i l h b = omega arith
rest_lt (suc zero) size i l h b = omega arith
rest_lt (suc (suc zero)) size i l h b = omega arith
rest_lt (suc (suc (suc zero))) size i l h b = omega arith
rest_lt (suc (suc (suc (suc zero)))) size i l h b = omega arith
rest_lt (suc (suc (suc (suc (suc n))))) size i l h b = absurd (omega arith)

size_pos :
    (larger size i : ℕ) → larger < 5 → i < 5 * size + larger → larger * (size + 1) ≤ i → 0 < size
size_pos larger zero i l h b = absurd (omega arith)
size_pos larger (suc size) i l h b = omega arith

div-lt : (x k y : ℕ) → 0 < k → x < y * k → x / k < y
div-lt x k y p h = (div-lt_iff_lt-mul p).1 h

rest_div_lt :
    (larger size i : ℕ)
    → larger < 5
    → i < 5 * size + larger
    → larger * (size + 1) ≤ i
    → (i - larger * (size + 1)) / size < 5 - larger
rest_div_lt larger size i l h b =
    div-lt (i - larger * (size + 1)) size (5 - larger) (size_pos larger size i l h b)
      (rest_lt larger size i l h b)

pub ntile_bounds : (total i : ℕ) → i < total → (1 ≤ ntile 5 total i) × (ntile 5 total i ≤ 5)
unfolding ntile
ntile_bounds total i h =
    let size = total / 5 in
    let larger = total % 5 in
    elim (Bool-cases (ltb i (larger * (size + 1)))) [
      | inl low ↦
          let d : i / (size + 1) < larger =
            div-lt i (size + 1) larger (omega arith) (ltb→lt _ _ low) in
          rw low (omega arith)
      | inr high ↦
          let d = rest_div_lt larger size i (omega arith) (omega arith) (ground arith) in
          rw high (omega arith)
    ]

-- A later row is in the same bucket or in a later one.
pub ntile_mono : (total i j : ℕ) → i ≤ j → j < total → ntile 5 total i ≤ ntile 5 total j
unfolding ntile
ntile_mono total i j le h =
    let size = total / 5 in
    let larger = total % 5 in
    elim (Bool-cases (ltb i (larger * (size + 1)))) [
      | inl low ↦ elim (Bool-cases (ltb j (larger * (size + 1)))) [
        | inl low' ↦ rw (low, low') (omega (arith, div_mono (size + 1) i j le))
        | inr high' ↦
            let d : i / (size + 1) < larger =
              div-lt i (size + 1) larger (omega arith) (ltb→lt _ _ low) in
            rw (low, high') (omega arith)
      ]
      | inr high ↦ elim (Bool-cases (ltb j (larger * (size + 1)))) [
        | inl low' ↦ absurd (ground arith)
        | inr high' ↦
            rw (high, high')
              (omega (
                arith,
                div_mono size (i - larger * (size + 1)) (j - larger * (size + 1)) (omega arith),
              ))
      ]
    ]

above-lt-length :
    (v : ℕ) (values : List ℕ)
    → any (λ u. u == v) values ≡ true
    → count_if (λ u. ltb v u) values < length values
above-lt-length v [] h = cc
above-lt-length v (u ∷ rest) h = elim (Bool-cases (any (λ w. w == v) rest)) [
  | inl there ↦ ground (arith, above-lt-length v rest there)
  | inr absent ↦ ground (arith, count_le v rest)
]
  where
    count_le : (w : ℕ) (l : List ℕ) → count_if (λ u. ltb w u) l ≤ length l
    count_le w [] = omega arith
    count_le w (x ∷ l) = ground (arith, count_le w l)

above_mono :
    (u v : ℕ) (values : List ℕ)
    → u ≤ v
    → count_if (λ w. ltb v w) values ≤ count_if (λ w. ltb u w) values
above_mono u v [] h = omega arith
above_mono u v (x ∷ rest) h = ground (arith, above_mono u v rest h)

-- The score of a value that stands among the values of its measure is from 1 to 5.
pub score_bounds :
    (values : List ℕ) (v : ℕ)
    → any (λ u. u == v) values ≡ true
    → (1 ≤ score values v) × (score values v ≤ 5)
unfolding score
score_bounds values v h =
    let b =
      ntile_bounds (length values) (count_if (λ u. ltb v u) values) (above-lt-length v values h) in
    omega arith

-- Of two values, the lower one standing among the values of the measure, the greater never scores lower.
pub score_mono :
    (values : List ℕ) (u v : ℕ)
    → u ≤ v
    → any (λ w. w == u) values ≡ true
    → score values u ≤ score values v
unfolding score
score_mono values u v le h =
    let m =
      ntile_mono (length values) (count_if (λ w. ltb v w) values) (count_if (λ w. ltb u w) values)
        (above_mono u v values le) (above-lt-length u values h) in
    omega arith

-- With no larger bucket the first row opens the first bucket.
ntile_first : (total : ℕ) → 0 < total → ntile 5 total 0 ≡ 1
unfolding ntile
ntile_first total h =
    let size = total / 5 in
    let larger = total % 5 in
    elim (Bool-cases (ltb 0 (larger * (size + 1)))) [
      | inl low ↦ rw low (omega arith)
      | inr high ↦ rw high (let e : larger ≡ 0 = ground arith in rw e (omega arith))
    ]

-- A value that stands among the values of its measure and that none of them exceeds scores 5.
pub score_best :
    (values : List ℕ) (v : ℕ)
    → any (λ u. u == v) values ≡ true
    → count_if (λ u. ltb v u) values ≡ 0
    → score values v ≡ 5
unfolding score
score_best values v h top =
    rw top (omega (arith, ntile_first (length values) (omega (arith, above-lt-length v values h))))
