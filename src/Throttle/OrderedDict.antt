-- ===== src/Throttle/OrderedDict.antt =====
-- The OrderedDict of the throttle: keys in order, each with its deque.
use retail_segmentation.Prelude.{
  ℕ, ◌≡◌, refl, Option, none, some, List, [], ◌∷◌, ◌++◌, if◌then◌else◌, ◌==◌, arith, ◌∙◌, sym,
  Option-cases, Bool-cases, inl, inr,
}

abbrev pub Buckets : Type 0
Buckets = List (ℕ × List ℕ)

unfoldable pub get : ℕ → Buckets → Option (List ℕ)
get k [] = none
get k ((j, v) ∷ d) = let rest = get k d in if j == k then some v else rest

-- `pop(key, None)`
unfoldable pub pop : ℕ → Buckets → Buckets
pop k [] = []
pop k ((j, v) ∷ d) = let rest = pop k d in if j == k then rest else (j, v) ∷ rest

abbrev pub put_last : ℕ → Option (List ℕ) → Buckets → Buckets
put_last k none d = d
put_last k (some v) d = d ++ (k, v) ∷ []

unfoldable pub move_to_end : ℕ → Buckets → Buckets
unfolding get pop
move_to_end k d = put_last k (get k d) (pop k d)

abbrev default_last : ℕ → Option (List ℕ) → Buckets → Buckets
default_last k none d = d ++ (k, []) ∷ []
default_last k (some v) d = d

-- `setdefault(key, deque())`
unfoldable pub set_default : ℕ → Buckets → Buckets
unfolding get
set_default k d = default_last k (get k d) d

-- A write to the deque that stands under a key.
unfoldable pub put : ℕ → List ℕ → Buckets → Buckets
put k v [] = []
put k v ((j, w) ∷ d) = let rest = put k v d in if j == k then (j, v) ∷ rest else (j, w) ∷ rest

pub get-pop : (j k : ℕ) (d : Buckets) → get j (pop k d) ≡ (if k == j then none else get j d)
unfolding get pop
get-pop j k [] = ground arith
get-pop j k ((i, v) ∷ d) = ground (arith, get-pop j k d)

abbrev pub or_else : Option (List ℕ) → Option (List ℕ) → Option (List ℕ)
or_else (some v) o = some v
or_else none o = o

pub get-append : (j : ℕ) (d e : Buckets) → get j (d ++ e) ≡ or_else (get j d) (get j e)
unfolding get
get-append j [] e = refl
get-append j ((i, v) ∷ d) e = ground (arith, get-append j d e)

abbrev pub replaced : List ℕ → Option (List ℕ) → Option (List ℕ)
replaced v none = none
replaced v (some w) = some v

pub get-put :
    (j k : ℕ) (v : List ℕ) (d : Buckets)
    → get j (put k v d) ≡ (if k == j then replaced v (get j d) else get j d)
unfolding get put
get-put j k v [] = ground arith
get-put j k v ((i, w) ∷ d) = ground (arith, get-put j k v d)

pub get-move_to_end : (j k : ℕ) (d : Buckets) → get j (move_to_end k d) ≡ get j d
unfolding move_to_end
get-move_to_end j k d = elim (Option-cases (get k d)) [
  | inl missing ↦ rw missing (
      get-pop j k d ∙ elim (Bool-cases (k == j)) [
        | inl same ↦ let e : k ≡ j = ground arith in rw same (rw e at (sym missing))
        | inr other ↦ rw other
      ])
  | inr (v, there) ↦ rw there (
      get-append j (pop k d) ((k, v) ∷ []) ∙ elim (Bool-cases (k == j)) [
        | inl same ↦
            let e : k ≡ j = ground arith in
            rw (get-pop j k d, same) (unfold get in rw e at (sym there))
        | inr other ↦ rw (get-pop j k d, other) (unfold get in or_else-none (get j d))
      ])
]
  where
    or_else-none : (o : Option (List ℕ)) → or_else o none ≡ o
    or_else-none none = refl
    or_else-none (some w) = refl

pub get-set_default :
    (j k : ℕ) (d : Buckets)
    → get j (set_default k d) ≡ or_else (get j d) (if k == j then some [] else none)
unfolding set_default
get-set_default j k d = elim (Option-cases (get k d)) [
  | inl missing ↦ rw missing (get-append j d ((k, []) ∷ []) ∙ (unfold get in refl))
  | inr (v, there) ↦ rw there (elim (Bool-cases (k == j)) [
    | inl same ↦
        let e : k ≡ j = ground arith in
        rw same (let there' : get j d ≡ some v = rw e at there in rw there')
    | inr other ↦ rw other (or_else-none (get j d))
  ])
]
  where
    or_else-none : (o : Option (List ℕ)) → o ≡ or_else o none
    or_else-none none = refl
    or_else-none (some w) = refl
