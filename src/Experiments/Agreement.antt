-- ===== src/Experiments/Agreement.antt =====
-- `plan_assignment` and `assign` of web/services/experiments.py: the preview, and the rows that the same plan writes.
use mathlib.Core.List.{Perm, Mem, Mem-prop, Nodup, Pairwise-cons, mem-cons, mem-cons_of_mem}
use mathlib.Core.List.Perm
use mathlib.Core.Logic.Or
use mathlib.Core.Path.{subst}
use retail_segmentation.Prelude.{
  ℕ, ◌≡◌, refl, sym, ap, ◌∙◌, Bool, true, false, List, [], ◌∷◌, ◌++◌, map, keep, any, All, All-mono,
  All-both, All-keep, All-kept, All-map, All-sort_by, sort_by-perm, ltb, ◌==◌, ◌>>=◌, arith, ok,
  err, Result, Bool-cases, Option-cases, Result-cases, inl, inr,
}
use retail_segmentation.Experiments.Lab.{
  Assigned, Group, Lab, Refusal, assignments_of, get_experiment, groups_of,
}
use retail_segmentation.Experiments.Assignment.{
  AssignmentPlan, assign, insert_assignments, is_assigned, is_group, list_groups, plan_assignment,
  read_target_population, rows_of,
}
use retail_segmentation.Experiments.Dealing.{flat}
use retail_segmentation.Experiments.Arms.{lists_of, plan_balanced}
use retail_segmentation.Experiments.Shapes.{plan_assignment_ok}
use retail_segmentation.Experiments.Rows.{
  All-of_mem, All-rows_of, AllDiffer, Fits, Nodup-AllDiffer, customers_of, customers_of-rows_of,
  insert_assignments_all, pairs_of,
}

keep-taken :
    {A : Type 0} (p : A → Bool) (x : A) (xs : List A) → p x ≡ true → keep p (x ∷ xs) ≡ x ∷ keep p xs
keep-taken p x xs h = rw h refl

keep-dropped :
    {A : Type 0} (p : A → Bool) (x : A) (xs : List A) → p x ≡ false → keep p (x ∷ xs) ≡ keep p xs
keep-dropped p x xs h = rw h refl

-- A sublist by a test has no more members.
Mem-map_keep :
    {A : Type 0} (f : A → ℕ) (p : A → Bool) (xs : List A) (a : ℕ)
    → Mem a (map f (keep p xs))
    → Mem a (map f xs)
Mem-map_keep f p [] a m = m
Mem-map_keep f p (x ∷ xs) a m = elim (Bool-cases (p x)) [
  | inl t ↦
      Or.elim Mem-prop (mem-cons.0 (subst (λ l. Mem a (map f l)) (keep-taken p x xs t) m))
        (λ e. mem-cons.1 (Or.inl e)) (λ r. mem-cons_of_mem (f x) (Mem-map_keep f p xs a r))
  | inr u ↦
      mem-cons_of_mem (f x)
        (Mem-map_keep f p xs a (subst (λ l. Mem a (map f l)) (keep-dropped p x xs u) m))
]

Nodup-map-keep :
    {A : Type 0} (f : A → ℕ) (p : A → Bool) (xs : List A)
    → Nodup (map f xs)
    → Nodup (map f (keep p xs))
Nodup-map-keep f p [] n = n
Nodup-map-keep f p (x ∷ xs) n =
    let (h, t) = Pairwise-cons.0 n in
    elim (Bool-cases (p x)) [
      | inl t1 ↦
          subst (λ l. Nodup (map f l)) (sym (keep-taken p x xs t1))
            (Pairwise-cons.1 ((λ a m. h a (Mem-map_keep f p xs a m)), Nodup-map-keep f p xs t))
      | inr u ↦ subst (λ l. Nodup (map f l)) (sym (keep-dropped p x xs u)) (Nodup-map-keep f p xs t)
    ]

Nodup-population :
    (lab : Lab) (label : ℕ)
    → Nodup (map (λ row. row.0) lab.open_labels)
    → Nodup (read_target_population lab label)
unfolding read_target_population
Nodup-population lab label n =
    Perm.nodup (Perm.symm (sort_by-perm ltb _)) (Nodup-map-keep (λ row. row.0) _ lab.open_labels n)

nobody_assigned :
    (i c : ℕ) (rows : List Assigned)
    → assignments_of rows i ≡ 0
    → any (is_assigned i c) rows ≡ false
unfolding assignments_of
nobody_assigned i c [] h = refl
nobody_assigned i c (a ∷ rows) h = ground (arith, nobody_assigned i c rows)

own_groups :
    (i : ℕ) (xs : List Group)
    → All (λ (g : Group). (g.experiment_id == i) ≡ true → any (is_group i g.group_id) xs ≡ true) xs
own_groups i [] = tt
own_groups i (x ∷ xs) = (
  λ h. ground arith,
  All-mono (λ (g : Group). (g.experiment_id == i) ≡ true → any (is_group i g.group_id) xs ≡ true)
      (λ (g : Group). (g.experiment_id == i) ≡ true → any (is_group i g.group_id) (x ∷ xs) ≡ true)
      (λ g h e. ground (arith, h e)) xs (own_groups i xs),
)

listed_groups :
    (lab : Lab) (i : ℕ)
    → All (λ (g : Group). any (is_group i g.group_id) lab.groups ≡ true) (list_groups lab i)
unfolding list_groups
listed_groups lab i =
    let own = λ (g : Group).
      (g.experiment_id == i) ≡ true → any (is_group i g.group_id) lab.groups ≡ true in
    All-sort_by _ (λ (g : Group). any (is_group i g.group_id) lab.groups ≡ true) (groups_of lab i)
      (All-mono (λ (g : Group). ((g.experiment_id == i) ≡ true) × own g)
        (λ (g : Group). any (is_group i g.group_id) lab.groups ≡ true) (λ g h. h.1 h.0)
        (groups_of lab i)
        (All-both (λ (g : Group). (g.experiment_id == i) ≡ true) own (groups_of lab i)
          (All-kept (λ (g : Group). g.experiment_id == i) lab.groups)
          (All-keep own (λ (g : Group). g.experiment_id == i) lab.groups
            (own_groups i lab.groups))))

-- How an assignment goes with the plan of the same moment.
abbrev pub IsAgreed :
    Lab → Result Refusal AssignmentPlan → Result Refusal (AssignmentPlan × Lab) → Type 0
IsAgreed lab (err e) assigned = assigned ≡ err e
IsAgreed lab (ok plan) assigned =
    (after : Lab) × (new : List Assigned) × (assigned ≡ ok (plan, after))
    × (after.assignments ≡ lab.assignments ++ new)
    × (pairs_of new ≡ rows_of plan.arms)

module _ (shuffle : ℕ → List ℕ → List ℕ)
    (deals : (i : ℕ) (xs : List ℕ) → Perm (shuffle i xs) xs) where
  plan-Fits :
      (lab : Lab) (i : ℕ) (plan : AssignmentPlan)
      → Nodup (map (λ row. row.0) lab.open_labels)
      → plan_assignment shuffle lab i ≡ ok plan
      → Fits i (rows_of plan.arms) lab
  plan-Fits lab i plan n h =
      let (ids, (perm, q, positive, sizes), enough) = plan_balanced shuffle deals lab i plan h in
      let none_yet = (plan_assignment_ok shuffle lab i plan h).3 in
      let customers = customers_of-rows_of plan.arms in
      let P = λ (g : ℕ). any (is_group i g) lab.groups ≡ true in
      (
        All-of_mem (λ c. any (is_assigned i c) lab.assignments ≡ false)
            (customers_of (rows_of plan.arms))
            (λ c m. nobody_assigned i c lab.assignments none_yet),
        subst AllDiffer (sym customers) (
            Nodup-AllDiffer (flat (lists_of plan.arms))
              (Perm.nodup (Perm.symm perm) (Nodup-population lab plan.label_code n))),
        All-rows_of P plan.arms (
            subst (λ l. All P l) (sym ids)
              (All-map P (λ (g : Group). g.group_id) (list_groups lab i) (listed_groups lab i))),
      )

  abbrev write_plan : Lab → ℕ → AssignmentPlan → Result Refusal (AssignmentPlan × Lab)
  write_plan lab i plan = do after ← insert_assignments i (rows_of plan.arms) lab; ok (plan, after)

  -- An experiment that is not there is refused by both.
  assign_lem :
      (lab : Lab) (i : ℕ)
      → assign shuffle lab i ≡ (plan_assignment shuffle lab i >>= write_plan lab i)
  unfolding assign plan_assignment
  assign_lem lab i = elim (Option-cases (get_experiment lab i)) [
    | inl gone ↦ rw gone refl
    | inr (e, found) ↦ rw found refl
  ]

  -- With a shuffle that permutes, and no customer twice among the open history rows, assigning an experiment
  -- is refused with the same refusal as its plan at that moment, and otherwise succeeds: it appends the
  -- plan's rows to the assignments, arm by arm and in order, and nothing else.
  pub assign-IsAgreed :
      (lab : Lab) (i : ℕ)
      → Nodup (map (λ row. row.0) lab.open_labels)
      → IsAgreed lab (plan_assignment shuffle lab i) (assign shuffle lab i)
  assign-IsAgreed lab i n = elim (Result-cases (plan_assignment shuffle lab i)) [
    | inl (plan, h) ↦
        let (after, new, inserted, written, pairs) =
          insert_assignments_all i (rows_of plan.arms) lab (plan-Fits lab i plan n h) in
        let ran =
          assign_lem lab i
          ∙ ap (λ m. m >>= write_plan lab i) h
          ∙ ap (λ m. m >>= λ (l : Lab). ok (plan, l)) inserted in
        subst (λ p. IsAgreed lab p (assign shuffle lab i)) (sym h) (after, new, ran, written, pairs)
    | inr (e, h) ↦
        subst (λ p. IsAgreed lab p (assign shuffle lab i)) (sym h)
          (assign_lem lab i ∙ ap (λ m. m >>= write_plan lab i) h)
  ]
