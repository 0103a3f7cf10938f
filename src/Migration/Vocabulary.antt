-- ===== src/Migration/Vocabulary.antt =====
-- The labels of a vocabulary among the rows and the columns of the matrix, and a comprehension whose function may raise.
use retail_segmentation.Prelude.{
  ℕ, ◌≡◌, refl, sym, ap, ◌∙◌, Bool, true, false, not, ◌&&◌, ◌||◌, Option, none, some, List, [], ◌∷◌,
  ◌++◌, map, any, sort_by, insert_by, arith, Bool-cases, inl, inr, String, str_eq, Result, ok,
  ◌>>=◌, bind_ok, ok_injective, true_≢_false,
}
use retail_segmentation.Migration.Dicts.{get, str_eq-IsEquality}
use retail_segmentation.Migration.Classify.{
  Labels, MigrationError, Ordinals, in_run, label_for, try_map,
}
use retail_segmentation.Migration.Matrix.{
  label_or_unassigned, not_in_earlier, not_in_later, ordered_labels, unassigned_name,
}
use retail_segmentation.Migration.Totals.{is_some}
use retail_segmentation.Migration.Total.{IsKnown, column_for, row_for}

-- What each element is mapped to.
pub try_map_ok :
    {A B C : Type 0} (f : A → Result MigrationError B) (g : B → C) (h : A → C)
    → ((a : A) (b : B) → f a ≡ ok b → g b ≡ h a)
    → (xs : List A) (ys : List B) → try_map f xs ≡ ok ys
    → map g ys ≡ map h xs
unfolding try_map
try_map_ok f g h k [] ys e = ap (map g) (sym (ok_injective e))
try_map_ok f g h k (x ∷ xs) ys e =
    let (y, mapped, e1) = bind_ok (f x) _ ys e in
    let (rest, mapped', e2) = bind_ok (try_map f xs) _ ys e1 in
    ap (map g) (sym (ok_injective e2))
    ∙ ap (λ c. c ∷ map g rest) (k x y mapped)
    ∙ ap (λ cs. h x ∷ cs) (try_map_ok f g h k xs rest mapped')

pub then_ok :
    {E A B : Type 0} (m : Result E A) (f : A → Result E B) (a : A)
    → m ≡ ok a
    → ((b : B) × (f a ≡ ok b))
    → (b : B) × ((m >>= f) ≡ ok b)
then_ok m f a h (b, k) = (b, ap (λ x. x >>= f) h ∙ k)

pub try_map_total :
    {A B : Type 0} (f : A → Result MigrationError B)
    → ((a : A) → (b : B) × (f a ≡ ok b))
    → (xs : List A) → (ys : List B) × (try_map f xs ≡ ok ys)
unfolding try_map
try_map_total f h [] = ([], refl)
try_map_total f h (x ∷ xs) =
    let (y, mapped) = h x in
    let (ys, mapped') = try_map_total f h xs in (y ∷ ys, rw (mapped, mapped') refl)

pub any-append_left :
    (p : String → Bool) (xs ys : List String) → any p xs ≡ true → any p (xs ++ ys) ≡ true
any-append_left p [] ys h = absurd (true_≢_false (sym h))
any-append_left p (x ∷ xs) ys h = ground (arith, any-append_left p xs ys)

pub any-append_right :
    (p : String → Bool) (xs ys : List String) → any p ys ≡ true → any p (xs ++ ys) ≡ true
any-append_right p [] ys h = h
any-append_right p (x ∷ xs) ys h = ground (arith, any-append_right p xs ys)

pub any-insert_by :
    (lt : String × ℕ → String × ℕ → Bool) (p : String → Bool) (e : String × ℕ) (d : Ordinals)
    → any p (map (λ x. x.0) (insert_by lt e d)) ≡ (p e.0 || any p (map (λ x. x.0) d))
any-insert_by lt p e [] = refl
any-insert_by lt p e (x ∷ d) = ground (arith, any-insert_by lt p e d)

pub any-sort_by :
    (lt : String × ℕ → String × ℕ → Bool) (p : String → Bool) (d : Ordinals)
    → any p (map (λ x. x.0) (sort_by lt d)) ≡ any p (map (λ x. x.0) d)
unfolding sort_by
any-sort_by lt p [] = refl
any-sort_by lt p (e ∷ d) =
    any-insert_by lt p e (sort_by lt d) ∙ ap (λ b. p e.0 || b) (any-sort_by lt p d)

pub known_label :
    (l : String) (d : Ordinals)
    → is_some (get str_eq l d) ≡ true
    → any (λ x. str_eq x l) (map (λ x. x.0) d) ≡ true
known_label l [] h = absurd (true_≢_false (sym h))
known_label l ((k, n) ∷ d) h = ground (arith, known_label l d)

-- A label of the vocabulary, or the name for none, is in any list of labels that ends with the two names.
pub in_labels :
    (ordinals : Ordinals) (last : String) (label : Option String)
    → IsKnown ordinals label
    → any
        (λ x. str_eq x (label_or_unassigned label))
        (ordered_labels ordinals ++ unassigned_name ∷ last ∷ [])
      ≡ true
unfolding ordered_labels
in_labels ordinals last none h =
    any-append_right (λ x. str_eq x unassigned_name) (ordered_labels ordinals)
      (unassigned_name ∷ last ∷ []) refl
in_labels ordinals last (some l) h =
    any-append_left (λ x. str_eq x l) (ordered_labels ordinals) (unassigned_name ∷ last ∷ [])
      (any-sort_by _ (λ x. str_eq x l) ordinals ∙ known_label l ordinals h)

pub itself_last : (a : Bool) {b : Bool} → b ≡ true → (a || (b || false)) ≡ true
itself_last true h = refl
itself_last false h = rw h refl

pub last_label :
    (ordinals : Ordinals) (last : String)
    → any (λ x. str_eq x last) (ordered_labels ordinals ++ unassigned_name ∷ last ∷ []) ≡ true
last_label ordinals last =
    any-append_right (λ x. str_eq x last) (ordered_labels ordinals) (unassigned_name ∷ last ∷ [])
      (itself_last (str_eq unassigned_name last) (str_eq-IsEquality.itself last))

pub row_for_there :
    (labels_a : Labels) (ordinals : Ordinals) (c : ℕ)
    → IsKnown ordinals (label_for labels_a c)
    → any
        (λ x. str_eq x (row_for labels_a c))
        (ordered_labels ordinals ++ unassigned_name ∷ not_in_earlier ∷ [])
      ≡ true
row_for_there labels_a ordinals c h = elim (Bool-cases (in_run labels_a c)) [
  | inl t ↦ rw t (in_labels ordinals not_in_earlier (label_for labels_a c) h)
  | inr f ↦ rw f (last_label ordinals not_in_earlier)
]

pub column_for_there :
    (labels_a labels_b : Labels) (ordinals : Ordinals) (c : ℕ)
    → IsKnown ordinals (label_for labels_b c)
    → any
        (λ x. str_eq x (column_for labels_a labels_b c))
        (ordered_labels ordinals ++ unassigned_name ∷ not_in_later ∷ [])
      ≡ true
column_for_there labels_a labels_b ordinals c h =
    elim (Bool-cases (in_run labels_a c && not (in_run labels_b c))) [
      | inl t ↦ rw t (last_label ordinals not_in_later)
      | inr f ↦ rw f (in_labels ordinals not_in_later (label_for labels_b c) h)
    ]
