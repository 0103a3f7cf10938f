-- ===== src/Migration/Dicts.antt =====
-- Python's dicts, as association lists in the order of insertion.
use retail_segmentation.Prelude.{
  ◌≡◌, refl, ap, sym, ◌∙◌, true_≢_false, Bool, true, false, Option, none, some, List, [], ◌∷◌, map,
  any, if◌then◌else◌, arith, Bool-cases, inl, inr, str_eq, eq_iff, ◌==◌, ==_iff,
}

abbrev pub Dict : Type 0 → Type 0 → Type 0
Dict K V = List (K × V)

module _ {K : Type 0} (eq : K → K → Bool) {V : Type 0} where
  -- `d.get(k)`
  abbrev pub get : K → Dict K V → Option V
  get k [] = none
  get k ((j, v) ∷ d) = let rest = get k d in if eq j k then some v else rest

  -- `d[k] = v`
  abbrev pub put : K → V → Dict K V → Dict K V
  put k v [] = (k, v) ∷ []
  put k v ((j, w) ∷ d) = let rest = put k v d in if eq j k then (j, v) ∷ d else (j, w) ∷ rest

  -- `dict(pairs)`: a later pair wins.
  abbrev pub put_all : List (K × V) → Dict K V → Dict K V
  put_all [] d = d
  put_all ((k, v) ∷ pairs) d = put_all pairs (put k v d)

  abbrev pub dict : List (K × V) → Dict K V
  dict pairs = put_all pairs []

  -- `k in d`
  abbrev pub has : K → Dict K V → Bool
  has k [] = false
  has k ((j, v) ∷ d) = let rest = has k d in if eq j k then true else rest

abbrev pub keys_of : {K V : Type 0} → Dict K V → List K
keys_of d = map (λ e. e.0) d

abbrev pub values_of : {K V : Type 0} → Dict K V → List V
values_of d = map (λ e. e.1) d

-- What the tests of keys satisfy.
pub record IsEquality {K : Type 0} (eq : K → K → Bool) : Type 0 where
  pub same : (a b : K) → eq a b ≡ true → a ≡ b
  pub itself : (a : K) → eq a a ≡ true

pub str_eq-IsEquality : IsEquality str_eq
str_eq-IsEquality = record {
  same = λ a b h. ground (arith, eq_iff a b);
  itself = λ a. ground (arith, eq_iff a a);
}

pub nat_eq-IsEquality : IsEquality ◌==◌
nat_eq-IsEquality = record { same = λ a b h. (==_iff a b).0 h; itself = λ a. (==_iff a a).1 refl }

module _ {K : Type 0} (eq : K → K → Bool) (laws : IsEquality eq) where
  -- A key equal to one of two different keys differs from the other.
  other_key : (i j k : K) → eq i j ≡ true → eq i k ≡ false → eq k j ≡ false
  other_key i j k t f = elim (Bool-cases (eq k j)) [
    | inl u ↦ absurd (
        true_≢_false
          (sym (laws.itself i) ∙ ap (λ x. eq i x) (laws.same i j t ∙ sym (laws.same k j u)) ∙ f))
    | inr u ↦ u
  ]

module _ {K : Type 0} (eq : K → K → Bool) (laws : IsEquality eq) {V : Type 0} where
  pub get-put :
      (j k : K) (v : V) (d : Dict K V)
      → get eq j (put eq k v d) ≡ (if eq k j then some v else get eq j d)
  get-put j k v [] = refl
  get-put j k v ((i, w) ∷ d) = elim (Bool-cases (eq i k)) [
    | inl t ↦ rw (t, ap (λ x. eq x j) (laws.same i k t)) (ground arith)
    | inr f ↦ elim (Bool-cases (eq i j)) [
      | inl t ↦ rw (f, t, other_key eq laws i j k t f) refl
      | inr u ↦ rw (f, u) (get-put j k v d)
    ]
  ]

  -- A dict built from a function of the keys.
  pub get-put_all :
      (f : K → V) (j : K) (ks : List K) (d : Dict K V)
      → get eq j (put_all eq (map (λ k. (k, f k)) ks) d)
        ≡ (if any (λ k. eq k j) ks then some (f j) else get eq j d)
  get-put_all f j [] d = refl
  get-put_all f j (k ∷ ks) d =
      get-put_all f j ks (put eq k (f k) d) ∙ (elim (Bool-cases (any (λ i. eq i j) ks)) [
        | inl t ↦ rw t (ground arith)
        | inr u ↦
            rw (u, get-put j k (f k) d)
              (elim (Bool-cases (eq k j)) [
                | inl t ↦ rw t (ap (λ i. some (f i)) (laws.same k j t))
                | inr v ↦ rw v refl
              ])
      ])

  pub get-dict :
      (f : K → V) (j : K) (ks : List K)
      → get eq j (dict eq (map (λ k. (k, f k)) ks))
        ≡ (if any (λ k. eq k j) ks then some (f j) else none)
  get-dict f j ks = get-put_all f j ks []
