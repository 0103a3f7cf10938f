-- ===== src/Prelude/Filters.antt =====
-- What a comprehension with a test keeps, and what a search finds.
use mathlib.Core.Path.{◌≡◌, refl, ap, subst}
use mathlib.Core.Bool.{Bool, true, false}
use mathlib.Core.List.{List, [], ◌∷◌, ◌++◌, map}
use mathlib.Core.Option.{Option, some}
use mathlib.Core.Logic.{inl, inr}
use native.Mathlib.Omega.{arith}
use retail_segmentation.Prelude.Tests.{Bool-cases}
use retail_segmentation.Prelude.Lists.{All, All-append, any, keep, count_if, find_first, length}

pub some_injective {ℓ} : {A : Type ℓ} {a b : A} → ◌≡◌ {A = Option A} (some a) (some b) → a ≡ b
some_injective h = cc

pub count_if-keep {ℓ} :
    {A : Type ℓ} (p : A → Bool) (xs : List A) → count_if p xs ≡ length (keep p xs)
count_if-keep p [] = refl
count_if-keep p (x ∷ xs) = ground (arith, count_if-keep p xs)

pub keep-append {ℓ} :
    {A : Type ℓ} (p : A → Bool) (xs ys : List A) → keep p (xs ++ ys) ≡ keep p xs ++ keep p ys
keep-append p [] ys = refl
keep-append p (x ∷ xs) ys = elim (Bool-cases (p x)) [
  | inl t ↦ rw t (ap (λ l. x ∷ l) (keep-append p xs ys))
  | inr f ↦ rw f (keep-append p xs ys)
]

pub keep-none {ℓ} :
    {A : Type ℓ} (p : A → Bool) (xs : List A) → All (λ x. p x ≡ false) xs → keep p xs ≡ []
keep-none p [] h = refl
keep-none p (x ∷ xs) h = rw (h.0) (keep-none p xs h.1)

pub find_first-append {ℓ} :
    {A : Type ℓ} (p : A → Bool) (xs ys : List A) (a : A)
    → find_first p xs ≡ some a
    → find_first p (xs ++ ys) ≡ some a
find_first-append p [] ys a h = cc
find_first-append p (x ∷ xs) ys a h = elim (Bool-cases (p x)) [
  | inl t ↦ rw t (rw t at h)
  | inr f ↦ rw f (find_first-append p xs ys a (rw f at h))
]

pub find_first-append_none {ℓ} :
    {A : Type ℓ} (p : A → Bool) (xs ys : List A)
    → All (λ x. p x ≡ false) xs
    → find_first p (xs ++ ys) ≡ find_first p ys
find_first-append_none p [] ys h = refl
find_first-append_none p (x ∷ xs) ys h = rw (h.0) (find_first-append_none p xs ys h.1)

All-Unit {ℓ} : {A : Type ℓ} (xs : List A) → All (λ x. Unit {0}) xs
All-Unit [] = tt
All-Unit (x ∷ xs) = (tt, All-Unit xs)

pub find_first_sound {ℓ κ} :
    {A : Type ℓ} (p : A → Bool) (P : A → Type κ) (xs : List A) (a : A)
    → All P xs
    → find_first p xs ≡ some a
    → (p a ≡ true) × P a
find_first_sound p P [] a all h = cc
find_first_sound p P (x ∷ xs) a all h = elim (Bool-cases (p x)) [
  | inl t ↦ let e = some_injective (rw t at h) in (subst (λ y. p y ≡ true) e t, subst P e all.0)
  | inr f ↦ find_first_sound p P xs a all.1 (rw f at h)
]

pub find_first-true {ℓ} :
    {A : Type ℓ} (p : A → Bool) (xs : List A) (a : A) → find_first p xs ≡ some a → p a ≡ true
find_first-true p xs a h = (find_first_sound p (λ x. Unit {0}) xs a (All-Unit xs) h).0

pub find_first-map {ℓ} :
    {A : Type ℓ} (p : A → Bool) (f : A → A)
    → ((a : A) → p (f a) ≡ p a)
    → (xs : List A) (a : A) → find_first p xs ≡ some a
    → find_first p (map f xs) ≡ some (f a)
find_first-map p f h [] a e = cc
find_first-map p f h (x ∷ xs) a e = elim (Bool-cases (p x)) [
  | inl t ↦ rw (h x, t) (ap (λ y. some (f y)) (some_injective (rw t at e)))
  | inr u ↦ rw (h x, u) (find_first-map p f h xs a (rw u at e))
]

pub All-keep {ℓ κ} :
    {A : Type ℓ} (P : A → Type κ) (p : A → Bool) (xs : List A) → All P xs → All P (keep p xs)
All-keep P p [] h = tt
All-keep P p (x ∷ xs) h = elim (Bool-cases (p x)) [
  | inl t ↦ rw t (h.0, All-keep P p xs h.1)
  | inr f ↦ rw f (All-keep P p xs h.1)
]

-- What is kept passes the test.
pub All-kept {ℓ} : {A : Type ℓ} (p : A → Bool) (xs : List A) → All (λ x. p x ≡ true) (keep p xs)
All-kept p [] = tt
All-kept p (x ∷ xs) = elim (Bool-cases (p x)) [
  | inl t ↦ rw t (t, All-kept p xs)
  | inr f ↦ rw f (All-kept p xs)
]

pub All-map {ℓ κ μ} :
    {A : Type ℓ} {B : Type κ} (P : B → Type μ) (f : A → B) (xs : List A)
    → All (λ x. P (f x)) xs
    → All P (map f xs)
All-map P f [] h = tt
All-map P f (x ∷ xs) h = (h.0, All-map P f xs h.1)

pub All-map_inv {ℓ κ μ} :
    {A : Type ℓ} {B : Type κ} (P : B → Type μ) (f : A → B) (xs : List A)
    → All P (map f xs)
    → All (λ x. P (f x)) xs
All-map_inv P f [] h = tt
All-map_inv P f (x ∷ xs) h = (h.0, All-map_inv P f xs h.1)

pub All-both {ℓ κ μ} :
    {A : Type ℓ} (P : A → Type κ) (Q : A → Type μ) (xs : List A)
    → All P xs
    → All Q xs
    → All (λ x. P x × Q x) xs
All-both P Q [] h k = tt
All-both P Q (x ∷ xs) h k = ((h.0, k.0), All-both P Q xs h.1 k.1)

pub true_≢_false : true ≡ false → ⊥
true_≢_false h = cc

pub any-false {ℓ} :
    {A : Type ℓ} (p : A → Bool) (xs : List A) → any p xs ≡ false → All (λ x. p x ≡ false) xs
any-false p [] h = tt
any-false p (x ∷ xs) h = elim (Bool-cases (p x)) [
  | inl t ↦ absurd (true_≢_false (rw t at h))
  | inr f ↦ (f, any-false p xs (rw f at h))
]

-- The relation holds between each element and every later one.
abbrev pub Pairwise {ℓ κ} : {A : Type ℓ} → (A → A → Type κ) → List A → Type κ
Pairwise R [] = Unit
Pairwise R (x ∷ xs) = All (λ y. R x y) xs × Pairwise R xs

pub Pairwise-snoc {ℓ κ} :
    {A : Type ℓ} (R : A → A → Type κ) (xs : List A) (y : A)
    → Pairwise R xs
    → All (λ x. R x y) xs
    → Pairwise R (xs ++ y ∷ [])
Pairwise-snoc R [] y h k = (tt, tt)
Pairwise-snoc R (x ∷ xs) y h k =
    (All-append (λ z. R x z) xs (y ∷ []) h.0 (k.0, tt), Pairwise-snoc R xs y h.1 k.1)
