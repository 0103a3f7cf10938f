-- ===== src/Experiments/Blank.antt =====
-- Texts of spaces only: `strip` and the test `not text.strip()`.
use mathlib.Core.List.{reverse, reverse_aux}
use retail_segmentation.Prelude.{
  ℕ, ◌≡◌, refl, sym, ap, ◌∙◌, Bool, true, false, not, ◌||◌, List, [], ◌∷◌, any, arith, Bool-cases,
  inl, inr, ◌⊎◌, true_≢_false,
}
use retail_segmentation.Segmentation.Window.{drop_space, is_space, strip}
use retail_segmentation.Experiments.Setup.{is_blank}

abbrev inked : List ℕ → Bool
inked text = any (λ c. not (is_space c)) text

inked-drop_space : (text : List ℕ) → inked (drop_space text) ≡ inked text
unfolding drop_space
inked-drop_space [] = refl
inked-drop_space (c ∷ text) = ground (arith, inked-drop_space text)

inked-reverse_aux : (xs ys : List ℕ) → inked (reverse_aux xs ys) ≡ (inked xs || inked ys)
inked-reverse_aux [] ys = refl
inked-reverse_aux (x ∷ xs) ys = inked-reverse_aux xs (x ∷ ys) ∙ (ground arith)

inked-reverse : (xs : List ℕ) → inked (reverse xs) ≡ inked xs
inked-reverse xs = inked-reverse_aux xs [] ∙ (ground arith)

inked-strip : (text : List ℕ) → inked (strip text) ≡ inked text
unfolding strip
inked-strip text =
    inked-reverse (drop_space (reverse (drop_space text)))
    ∙ inked-drop_space (reverse (drop_space text))
    ∙ inked-reverse (drop_space text)
    ∙ inked-drop_space text

drop_space-inked : (text : List ℕ) → (drop_space text ≡ []) ⊎ (inked (drop_space text) ≡ true)
unfolding drop_space
drop_space-inked [] = inl refl
drop_space-inked (c ∷ text) = elim (Bool-cases (is_space c)) [
  | inl t ↦ rw t (drop_space-inked text)
  | inr f ↦ rw f (inr (rw f refl))
]

not_empty :
    (text : List ℕ) → inked text ≡ true → (elim text [ [] ↦ true | c ∷ rest ↦ false ]) ≡ false
not_empty [] h = cc
not_empty (c ∷ rest) h = refl

inked-not_blank : (text : List ℕ) → inked text ≡ true → is_blank text ≡ false
inked-not_blank text h = not_empty (strip text) (inked-strip text ∙ h)

not_blank-inked : (text : List ℕ) → is_blank text ≡ false → inked text ≡ true
unfolding strip
not_blank-inked text h = elim (drop_space-inked (reverse (drop_space text))) [
  | inl empty ↦
      absurd
        (true_≢_false (ap (λ u. elim (reverse u) [ [] ↦ true | c ∷ rest ↦ false ]) (sym empty) ∙ h))
  | inr ink ↦
      sym (
        inked-drop_space (reverse (drop_space text))
        ∙ inked-reverse (drop_space text)
        ∙ inked-drop_space text)
      ∙ ink
]

pub strip-not_blank : (text : List ℕ) → is_blank text ≡ false → is_blank (strip text) ≡ false
strip-not_blank text h = inked-not_blank (strip text) (inked-strip text ∙ not_blank-inked text h)
