-- ===== src/Experiments/Arms.antt =====
-- The arms of a plan: `split` and `_plan` of web/services/experiments.py.
use mathlib.Core.List.{Perm, foldr}
use mathlib.Core.List.Perm
use mathlib.Core.Path.{subst}
use native.Mathlib.Nat.{zero-add, ℕ_set}
use retail_segmentation.Prelude.{
  ℕ, zero, suc, ◌+◌, ◌*◌, ◌≤◌, ◌<◌, ◌≡◌, refl, sym, ap, ◌∙◌, not, List, [], ◌∷◌, ◌++◌, map, length,
  length-map, length-sort_by, sort_by-perm, count_if-le-length, ltb, sort_by, All, arith, ok,
}
use retail_segmentation.Experiments.Lab.{Group, Lab, groups_of, is_control, treatment_groups}
use retail_segmentation.Experiments.Assignment.{
  Arm, AssignmentPlan, Dealt, arms_of, deal, list_groups, nothing_dealt, plan_assignment,
  read_target_population, split,
}
use retail_segmentation.Experiments.Dealing.{IsDealt, IsDealt-bounds, deal_lem, flat, path_perm}
use retail_segmentation.Experiments.Shapes.{plan_assignment_ok}

abbrev pub lists_of : List Arm → Dealt
lists_of arms = map (λ (a : Arm). a.customers) arms

abbrev pub group_ids : List Arm → List ℕ
group_ids arms = map (λ (a : Arm). a.group_id) arms

-- Each customer of the list is in exactly one arm, no arm is empty, and the arms hold `q` or `q + 1` customers each.
abbrev pub IsFairSplit : List ℕ → List Arm → Type 0
IsFairSplit customers arms =
    Perm (flat (lists_of arms)) customers
    × (q : ℕ) × (1 ≤ q)
    × All (λ (a : Arm). (q ≤ length a.customers) × (length a.customers ≤ suc q)) arms

arms_of-lists :
    (groups : List Group) (dealt : Dealt)
    → length dealt ≡ length groups
    → lists_of (arms_of groups dealt) ≡ dealt
unfolding arms_of
arms_of-lists [] [] e = refl
arms_of-lists [] (d ∷ dealt) e = absurd (omega arith)
arms_of-lists (g ∷ groups) [] e = absurd (omega arith)
arms_of-lists (g ∷ groups) (d ∷ dealt) e =
    ap (λ l. d ∷ l) (arms_of-lists groups dealt (omega arith))

arms_of-ids :
    (groups : List Group) (dealt : Dealt)
    → length dealt ≡ length groups
    → group_ids (arms_of groups dealt) ≡ map (λ (g : Group). g.group_id) groups
unfolding arms_of
arms_of-ids [] [] e = refl
arms_of-ids [] (d ∷ dealt) e = absurd (omega arith)
arms_of-ids (g ∷ groups) [] e = absurd (omega arith)
arms_of-ids (g ∷ groups) (d ∷ dealt) e =
    ap (λ l. g.group_id ∷ l) (arms_of-ids groups dealt (omega arith))

nothing_dealt-IsDealt : (groups : List Group) → IsDealt 0 0 (nothing_dealt groups)
nothing_dealt-IsDealt [] = refl
nothing_dealt-IsDealt (g ∷ groups) = (refl, nothing_dealt-IsDealt groups)

flat-nothing_dealt : (groups : List Group) → flat (nothing_dealt groups) ≡ []
flat-nothing_dealt [] = refl
flat-nothing_dealt (g ∷ groups) = flat-nothing_dealt groups

All-lists :
    (P : List ℕ → Type 0) (arms : List Arm)
    → All P (lists_of arms)
    → All (λ (a : Arm). P a.customers) arms
All-lists P [] h = tt
All-lists P (a ∷ arms) h = (h.0, All-lists P arms h.1)

quotient_positive : (n k s m : ℕ) → s < n → k * n + s ≡ m → n ≤ m → 1 ≤ k
quotient_positive n zero s m b e l = omega arith
quotient_positive n (suc k) s m b e l = omega arith

length-foldr : (xs : List ℕ) → foldr (λ x n. suc n) 0 xs ≡ length xs
length-foldr [] = refl
length-foldr (x ∷ xs) = ap suc (length-foldr xs)

Perm-length : {xs ys : List ℕ} → Perm xs ys → length xs ≡ length ys
Perm-length {xs} {ys} p =
    sym (length-foldr xs)
    ∙ Perm.foldr-eq ℕ_set (λ (x n : ℕ). suc n) (λ a b c. refl) p 0
    ∙ length-foldr ys

length-list_groups : (lab : Lab) (i : ℕ) → length (list_groups lab i) ≡ length (groups_of lab i)
unfolding list_groups
length-list_groups lab i = length-sort_by _ (groups_of lab i)

treatment_groups-le : (lab : Lab) (i : ℕ) → treatment_groups lab i ≤ length (groups_of lab i)
treatment_groups-le lab i =
    count_if-le-length (λ (g : Group). not (is_control g.kind)) (groups_of lab i)

module _ (shuffle : ℕ → List ℕ → List ℕ)
    (deals : (i : ℕ) (xs : List ℕ) → Perm (shuffle i xs) xs) where
  pub split_lem :
      (i : ℕ) (customers : List ℕ) (groups : List Group)
      → 0 < length groups
      → length groups ≤ length customers
      → (group_ids (split shuffle i customers groups) ≡ map (λ (g : Group). g.group_id) groups)
        × IsFairSplit customers (split shuffle i customers groups)
  unfolding split
  split_lem i customers groups some_groups enough =
      let order = shuffle i (sort_by ltb customers) in
      let shuffled = Perm.trans (deals i (sort_by ltb customers)) (sort_by-perm ltb customers) in
      let n = length groups in
      let dealt = deal n 0 order (nothing_dealt groups) in
      let (k, s, h, b, e, perm, m) =
        deal_lem n 0 0 0 order (nothing_dealt groups) (sym (length-map (λ (g : Group). []) groups))
          (omega arith) some_groups (nothing_dealt-IsDealt groups) in
      let lists = arms_of-lists groups dealt m in
      (
        arms_of-ids groups dealt m,
        (
          Perm.trans (path_perm (ap flat lists)) (
              Perm.trans perm (
                Perm.trans (path_perm (ap (λ l. l ++ order) (flat-nothing_dealt groups)))
                  shuffled)),
          k,
          quotient_positive n k s (length order) b (e ∙ zero-add (length order))
              (omega (arith, enough, Perm-length shuffled)),
          All-lists (λ d. (k ≤ length d) × (length d ≤ suc k)) (arms_of groups dealt)
              (subst (λ ls. All (λ d. (k ≤ length d) × (length d ≤ suc k)) ls) (sym lists)
                (IsDealt-bounds k s dealt h)),
        ),
      )

  -- With a shuffle that permutes, the arms of a plan are the experiment's groups in their order, the
  -- customers of the arms together are exactly the target population, no arm is empty, the sizes of two arms
  -- differ by at most one, and there are no more arms than customers.
  pub plan_balanced :
      (lab : Lab) (i : ℕ) (plan : AssignmentPlan)
      → plan_assignment shuffle lab i ≡ ok plan
      → (group_ids plan.arms ≡ map (λ (g : Group). g.group_id) (list_groups lab i))
        × IsFairSplit (read_target_population lab plan.label_code) plan.arms
        × (length plan.arms ≤ length (read_target_population lab plan.label_code))
  plan_balanced lab i plan h =
      let (label, arms, coded, none_yet, enough, treated) =
        plan_assignment_ok shuffle lab i plan h in
      let groups = list_groups lab i in
      let customers = read_target_population lab label in
      let some_groups : 0 < length groups =
        omega (arith, length-list_groups lab i, treatment_groups-le lab i, treated) in
      let (ids, fair) = split_lem i customers groups some_groups enough in
      let count : length plan.arms ≡ length groups =
        sym (length-map (λ (a : Arm). a.group_id) plan.arms)
        ∙ ap (λ (l : List ℕ). length l) (ap group_ids arms ∙ ids)
        ∙ length-map (λ (g : Group). g.group_id) groups in
      (
        ap group_ids arms ∙ ids,
        subst (λ l. IsFairSplit (read_target_population lab l) plan.arms) coded
            (subst (λ a. IsFairSplit customers a) (sym arms) fair),
        subst (λ l. length plan.arms ≤ length (read_target_population lab l)) coded
            (omega (arith, count, enough)),
      )
