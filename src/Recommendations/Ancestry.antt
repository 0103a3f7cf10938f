-- ===== src/Recommendations/Ancestry.antt =====
-- The loop of `lineage` of services/recommendations/app/rule.py.
use retail_segmentation.Prelude.{
  ℕ, zero, suc, ◌+◌, ◌≤◌, ◌<◌, ◌≡◌, refl, sym, ap, ◌∙◌, false, not, Option, none, some, List, [],
  ◌∷◌, length, count_if, count_if-le-length, ◌==◌, arith, Bool-cases, Option-cases, inl, inr,
}
use retail_segmentation.Recommendations.{Parents, fresh, member, parent_of, above, climb, lineage}

-- The entries of `parents` that a chain through the categories `done` has not followed.
remaining : Parents → List ℕ → ℕ
remaining parents done = count_if (λ entry. not (member entry.0 done)) parents

remaining-le :
    (parents : Parents) (last : ℕ) (done : List ℕ)
    → remaining parents (last ∷ done) ≤ remaining parents done
unfolding remaining
remaining-le [] last done = ground arith
remaining-le ((k, p) ∷ parents) last done = elim (Bool-cases (last == k)) [
  | inl same ↦ rw same (ground (arith, remaining-le parents last done))
  | inr other ↦ rw other (ground (arith, remaining-le parents last done))
]

remaining-lt :
    (parents : Parents) (last : ℕ) (done : List ℕ) (p : ℕ)
    → member last done ≡ false
    → parent_of parents last ≡ some p
    → remaining parents (last ∷ done) < remaining parents done
unfolding remaining parent_of
remaining-lt [] last done p unseen found = ground arith
remaining-lt ((k, q) ∷ parents) last done p unseen found = elim (Bool-cases (last == k)) [
  | inl same ↦
      let e : last ≡ k = ground arith in
      let out : member k done ≡ false = rw e at unseen in
      rw (same, out) (ground (arith, remaining-le parents last done))
  | inr other ↦
      let back : (k == last) ≡ false = ground arith in
      let found' : parent_of parents last ≡ some p = rw back at found in
      rw other (ground (arith, remaining-lt parents last done p unseen found'))
]

fresh_lem :
    (seen : List ℕ) (o : Option ℕ) (p : ℕ)
    → fresh seen o ≡ some p
    → (o ≡ some p) × (member p seen ≡ false)
fresh_lem seen none p found = ground arith
fresh_lem seen (some q) p found = elim (Bool-cases (member q seen)) [
  | inl old ↦ let no : none ≡ some p = rw old at found in ground arith
  | inr new ↦
      let e : some q ≡ some p = rw new at found in
      let e' : q ≡ p = ground arith in (e, rw (sym e') new)
]

-- One more round changes nothing once there is fuel for the entries that are left.
climb_more :
    (n : ℕ) (parents : Parents) (last : ℕ) (done : List ℕ)
    → member last done ≡ false
    → remaining parents done ≤ n
    → climb (suc n) parents last done ≡ climb n parents last done
unfolding climb
climb_more zero parents last done unseen enough =
    elim (Option-cases (above parents last (last ∷ done))) [
      | inl ends ↦ rw (climb, ends) refl
      | inr (p, up) ↦
          let found = fresh_lem (last ∷ done) (parent_of parents last) p up in
          let fewer = remaining-lt parents last done p unseen found.0 in ground arith
    ]
climb_more (suc n) parents last done unseen enough =
    elim (Option-cases (above parents last (last ∷ done))) [
      | inl ends ↦ rw (climb, ends) refl
      | inr (p, up) ↦
          let found = fresh_lem (last ∷ done) (parent_of parents last) p up in
          let fewer = remaining-lt parents last done p unseen found.0 in
          rw (climb, up)
            (ap (λ rest. p ∷ rest) (climb_more n parents p (last ∷ done) found.1 (ground arith)))
    ]

climb_enough :
    (extra n : ℕ) (parents : Parents) (last : ℕ)
    → remaining parents [] ≤ n
    → climb (extra + n) parents last [] ≡ climb n parents last []
climb_enough zero n parents last enough =
    let e : 0 + n ≡ n = omega arith in ap (λ m. climb m parents last []) e
climb_enough (suc extra) n parents last enough =
    let e : suc extra + n ≡ suc (extra + n) = omega arith in
    ap (λ m. climb m parents last []) e
    ∙ climb_more (extra + n) parents last [] refl (omega arith)
    ∙ climb_enough extra n parents last enough

-- The chain of a category is complete: following the parents for any number of further rounds adds no
-- category to it, also where they form a cycle.
pub lineage_lem :
    (extra category_id : ℕ) (parents : Parents)
    → category_id ∷ climb (extra + length parents) parents category_id []
      ≡ lineage category_id parents
unfolding lineage remaining
lineage_lem extra category_id parents =
    ap (λ rest. category_id ∷ rest)
      (climb_enough extra (length parents) parents category_id
        (count_if-le-length (λ entry. not (member entry.0 [])) parents))
