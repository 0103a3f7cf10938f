-- ===== src/Experiments/Dealing.antt =====
-- How evenly the arms of an experiment are dealt: the loop of `split` of web/services/experiments.py.
use mathlib.Core.List.{Perm, perm_middle, append_assoc, append-nil}
use mathlib.Core.List.Perm
use mathlib.Core.Path.{subst}
use native.Mathlib.Nat.{add_comm, add-mul-mod_self_right, mod-eq_of_lt}
use native.Mathlib.Decide.{dec_lt}
use retail_segmentation.Prelude.{
  ℕ, zero, suc, ◌+◌, ◌*◌, ◌%◌, ◌≤◌, ◌<◌, ◌≡◌, refl, sym, ap, ◌∙◌, List, [], ◌∷◌, ◌++◌, length,
  length-append, All, arith,
}
use retail_segmentation.Experiments.Assignment.{Dealt, deal, deal_to}

-- The first `r` lists hold one more than the others' `q`.
abbrev pub IsDealt : ℕ → ℕ → Dealt → Type 0
IsDealt q r [] = r ≡ 0
IsDealt q zero (d ∷ dealt) = (length d ≡ q) × IsDealt q 0 dealt
IsDealt q (suc r) (d ∷ dealt) = (length d ≡ suc q) × IsDealt q r dealt

abbrev pub flat : Dealt → List ℕ
flat [] = []
flat (d ∷ dealt) = d ++ flat dealt

length-deal_to : (i c : ℕ) (dealt : Dealt) → length (deal_to i c dealt) ≡ length dealt
unfolding deal_to
length-deal_to i c [] = refl
length-deal_to zero c (d ∷ dealt) = refl
length-deal_to (suc i) c (d ∷ dealt) = ap suc (length-deal_to i c dealt)

deal_to-IsDealt :
    (q r c : ℕ) (dealt : Dealt)
    → IsDealt q r dealt
    → r < length dealt
    → IsDealt q (suc r) (deal_to r c dealt)
unfolding deal_to
deal_to-IsDealt q r c [] h l = omega arith
deal_to-IsDealt q zero c (d ∷ dealt) (own, rest) l = (omega (arith, length-append d (c ∷ [])), rest)
deal_to-IsDealt q (suc r) c (d ∷ dealt) (own, rest) l =
    (own, deal_to-IsDealt q r c dealt rest (omega arith))

-- A full round.
full_round : (q : ℕ) (dealt : Dealt) → IsDealt q (length dealt) dealt → IsDealt (suc q) 0 dealt
full_round q [] h = refl
full_round q (d ∷ dealt) (own, rest) = (own, full_round q dealt rest)

pub IsDealt-bounds :
    (q r : ℕ) (dealt : Dealt)
    → IsDealt q r dealt
    → All (λ d. (q ≤ length d) × (length d ≤ suc q)) dealt
IsDealt-bounds q r [] h = tt
IsDealt-bounds q zero (d ∷ dealt) (own, rest) =
    ((omega arith, omega arith), IsDealt-bounds q 0 dealt rest)
IsDealt-bounds q (suc r) (d ∷ dealt) (own, rest) =
    ((omega arith, omega arith), IsDealt-bounds q r dealt rest)

pub path_perm : {xs ys : List ℕ} → xs ≡ ys → Perm xs ys
path_perm {xs} e = subst (λ zs. Perm xs zs) e (Perm.refl xs)

no_place : (i : ℕ) → i < 0 → ⊥
no_place i l = omega arith

deal_to-perm :
    (i c : ℕ) (dealt : Dealt) → i < length dealt → Perm (flat (deal_to i c dealt)) (c ∷ flat dealt)
unfolding deal_to
deal_to-perm i c [] l = absurd (no_place i l)
deal_to-perm zero c (d ∷ dealt) l =
    Perm.trans (path_perm (append_assoc d (c ∷ []) (flat dealt))) (perm_middle d (flat dealt))
deal_to-perm (suc i) c (d ∷ dealt) l =
    Perm.trans (Perm.append_left d (deal_to-perm i c dealt (omega arith)))
      (perm_middle d (flat dealt))

position-mod : (n q r : ℕ) → r < n → (q * n + r) % n ≡ r
position-mod n q r l =
    ap (λ x. x % n) (add_comm (q * n) r) ∙ add-mul-mod_self_right r q n ∙ mod-eq_of_lt l

-- What the loop leaves, from a position on.
abbrev pub Outcome : ℕ → ℕ → List ℕ → Dealt → Dealt → Type 0
Outcome n position order dealt after =
    (k : ℕ) × (s : ℕ) × IsDealt k s after
    × (s < n)
    × (k * n + s ≡ position + length order)
    × Perm (flat after) (flat dealt ++ order)
    × (length after ≡ n)

-- The rest of the loop, after one customer.
one_more :
    (n r p c : ℕ) (order : List ℕ) (dealt after : Dealt)
    → r < length dealt
    → Outcome n (suc p) order (deal_to r c dealt) after
    → Outcome n p (c ∷ order) dealt after
one_more n r p c order dealt after l (k, s, h, b, e, perm, m) = (
  k,
  s,
  h,
  b,
  omega arith,
  Perm.trans perm (
      Perm.trans (Perm.append_right order (deal_to-perm r c dealt l))
        (Perm.symm (perm_middle (flat dealt) order))),
  m,
)

-- The loop from a position whose quotient and remainder are known.
pub deal_lem :
    (n p q r : ℕ) (order : List ℕ) (dealt : Dealt)
    → n ≡ length dealt
    → p ≡ q * n + r
    → r < n
    → IsDealt q r dealt
    → Outcome n p order dealt (deal n p order dealt)
unfolding deal
deal_lem n p q r [] dealt e place l h =
    (q, r, h, l, omega arith, path_perm (sym (append-nil (flat dealt))), sym e)
deal_lem n p q r (c ∷ order) dealt e place l h =
    let at_r : p % n ≡ r = ap (λ x. x % n) place ∙ position-mod n q r l in
    let more = deal_to-IsDealt q r c dealt h (omega arith) in
    let same = e ∙ sym (length-deal_to r c dealt) in
    let rest : Outcome n (suc p) order (deal_to r c dealt)
        (deal n (suc p) order (deal_to r c dealt)) =
      elim (dec_lt (suc r) n) [
        | yes room ↦
            deal_lem n (suc p) q (suc r) order (deal_to r c dealt) same (omega arith) room more
        | no full ↦
            deal_lem n (suc p) (suc q) 0 order (deal_to r c dealt) same (omega arith) (omega arith)
              (full_round q (deal_to r c dealt)
                (subst (λ x. IsDealt q x (deal_to r c dealt)) (omega arith) more))
      ] in
    subst (λ x. Outcome n p (c ∷ order) dealt (deal n (suc p) order (deal_to x c dealt))) (sym at_r)
      (one_more n r p c order dealt (deal n (suc p) order (deal_to r c dealt)) (omega arith) rest)
