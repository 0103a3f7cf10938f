-- ===== src/Experiments/Frame.antt =====
-- The frame of an experiment, and what leaves it: lookups, arms, and an edit that passes `check_fixed`.
use Prim.Native.Nat.{max}
use mathlib.Core.List.{foldr, append-nil}
use retail_segmentation.Prelude.{
  ℕ, suc, ◌≤◌, ◌≡◌, refl, ap, ◌∙◌, Bool, true, false, not, Option, none, some, List, [], ◌∷◌, ◌++◌,
  map, keep, find_first, All, ◌==◌, arith, ok, Bool-cases, inl, inr, ==_iff, find_first-true,
  keep-append, keep-none,
}
use retail_segmentation.Experiments.Lab.{
  Assigned, Experiment, Group, Kind, Lab, get_experiment, groups_of, same_option, window_fixed,
  metric_fixed, campaign_fixed, start_fixed, end_fixed,
}
use retail_segmentation.Experiments.Setup.{ExperimentInput, check_fixed, edited, new_groups}
use retail_segmentation.Experiments.Chains.{after_raise, is_true, raise_if_ok}

-- Only the name may differ.
abbrev pub SameFrame : Experiment → Experiment → Type 0
SameFrame e d = d ≡ record e { name = d.name }

abbrev pub rows_for : Lab → ℕ → List Assigned
rows_for lab i = keep (λ (a : Assigned). a.experiment_id == i) lab.assignments

-- The experiment `i` is as `e` says, with these rows and these arms.
abbrev pub IsFrozen : ℕ → Experiment → Lab → Lab → Type 0
IsFrozen i e lab after =
    ((d : Experiment) × (get_experiment after i ≡ some d) × SameFrame e d)
    × (rows_for after i ≡ rows_for lab i)
    × (groups_of after i ≡ groups_of lab i)

pub SameFrame-trans : (e d c : Experiment) → SameFrame e d → SameFrame d c → SameFrame e c
SameFrame-trans e d c h k = k ∙ ap (λ (x : Experiment). record x { name = c.name }) h

abbrev pub tables : Lab → List Experiment × (List Assigned × List Group)
tables lab = (lab.experiments, (lab.assignments, lab.groups))

pub untouched :
    (i : ℕ) (e : Experiment) (lab after : Lab)
    → tables after ≡ tables lab
    → get_experiment lab i ≡ some e
    → IsFrozen i e lab after
unfolding get_experiment
untouched i e lab after h found = (
  (e, ap (λ q. find_first (λ (x : Experiment). x.experiment_id == i) q.0) h ∙ found, refl),
  ap (λ q. keep (λ (a : Assigned). a.experiment_id == i) q.1.0) h,
  ap (λ q. keep (λ (g : Group). g.experiment_id == i) q.1.1) h,
)

pub id_of :
    (i : ℕ) (xs : List Experiment) (e : Experiment)
    → find_first (λ (x : Experiment). x.experiment_id == i) xs ≡ some e
    → e.experiment_id ≡ i
id_of i xs e h =
    (==_iff e.experiment_id i).0 (find_first-true (λ (x : Experiment). x.experiment_id == i) xs e h)

pub find_first-le_next :
    (i : ℕ) (xs : List Experiment) (e : Experiment)
    → find_first (λ (x : Experiment). x.experiment_id == i) xs ≡ some e
    → i ≤ foldr max 0 (map (λ (x : Experiment). x.experiment_id) xs)
find_first-le_next i [] e h = cc
find_first-le_next i (x ∷ xs) e h = elim (Bool-cases (x.experiment_id == i)) [
  | inl t ↦ omega (arith, (==_iff x.experiment_id i).0 t)
  | inr f ↦ omega (arith, find_first-le_next i xs e (rw f at h))
]

pub All-other_groups :
    (i j n : ℕ) (rest : List (Kind × (List ℕ × List ℕ)))
    → (j == i) ≡ false
    → All (λ (g : Group). (g.experiment_id == i) ≡ false) (new_groups j n rest)
unfolding new_groups
All-other_groups i j n [] h = tt
All-other_groups i j n ((kind, (name, description)) ∷ rest) h =
    (h, All-other_groups i j (suc n) rest h)

pub keep-append_others {ℓ} :
    {A : Type ℓ} (p : A → Bool) (xs ys : List A)
    → All (λ x. p x ≡ false) ys
    → keep p (xs ++ ys) ≡ keep p xs
keep-append_others p xs ys h =
    keep-append p xs ys ∙ ap (λ l. keep p xs ++ l) (keep-none p ys h) ∙ append-nil (keep p xs)

pub same_option-eq : (o p : Option ℕ) → same_option o p ≡ true → o ≡ p
same_option-eq none none h = refl
same_option-eq (some a) (some b) h = ap some ((==_iff a b).0 h)
same_option-eq none (some b) h = cc
same_option-eq (some a) none h = cc

-- An edit that passes the check of an assigned experiment.
pub check_fixed-edited :
    (i : ℕ) (input : ExperimentInput) (e : Experiment)
    → check_fixed e input ≡ ok tt
    → SameFrame e (edited i input e)
unfolding check_fixed
check_fixed-edited i input e h =
    let (w, h1) =
      after_raise (not (input.conversion_window_days == e.conversion_window_days)) window_fixed _ tt
        h in
    let (m, h2) = after_raise (not (input.target_metric == e.target_metric)) metric_fixed _ tt h1 in
    let (c, h3) =
      after_raise (not (same_option input.campaign_id e.campaign_id)) campaign_fixed _ tt h2 in
    let (s, h4) = after_raise (not (input.starts_on == e.starts_on)) start_fixed _ tt h3 in
    let d = raise_if_ok (not (same_option input.ends_on e.ends_on)) end_fixed h4 in
    let e1 = (==_iff input.conversion_window_days e.conversion_window_days).0 (is_true _ w) in
    let e2 = (==_iff input.target_metric e.target_metric).0 (is_true _ m) in
    let e3 = same_option-eq input.campaign_id e.campaign_id (is_true _ c) in
    let e4 = (==_iff input.starts_on e.starts_on).0 (is_true _ s) in
    let e5 = same_option-eq input.ends_on e.ends_on (is_true _ d) in
    elim (Bool-cases (e.experiment_id == i)) [ inl t ↦ rw t (cc) | inr f ↦ rw f refl ]

pub edited-id :
    (i j : ℕ) (input : ExperimentInput) (e : Experiment)
    → ((edited j input e).experiment_id == i) ≡ (e.experiment_id == i)
edited-id i j input e = elim (Bool-cases (e.experiment_id == j)) [
  | inl t ↦ rw t refl
  | inr f ↦ rw f refl
]

-- An edit of another experiment leaves this one as it is.
pub edited-other :
    (j : ℕ) (input : ExperimentInput) (e : Experiment)
    → (e.experiment_id == j) ≡ false
    → SameFrame e (edited j input e)
edited-other j input e h = rw h refl
