-- ===== src/Experiments/Controls.antt =====
-- The rows that assignments and exposures write: whom they may name, and how far apart they are.
use mathlib.Core.Path.{subst}
use retail_segmentation.Prelude.{
  ◌⊎◌, ◌≢◌, ℕ, ◌+◌, ◌≤◌, ◌<◌, ◌≡◌, sym, ap, ◌∙◌, true, false, not, Option, none, some, List, [],
  ◌∷◌, ◌++◌, any, find_first, All, All-append, All-mono, Pairwise, Pairwise-snoc, any-false,
  find_first-append, find_first-append_none, ◌==◌, ◌>>◌, raise_if, if◌then◌else◌, arith, ok,
  ok_injective, Bool-cases, Option-cases, inl, inr,
}
use retail_segmentation.Experiments.Lab.{
  Assigned, Exposure, Group, Lab, customer_already_assigned, unknown_group,
}
use retail_segmentation.Experiments.Assignment.{
  insert_assignments, is_assigned, is_group, with_assignment,
}
use retail_segmentation.Experiments.Exposure.{
  counted, expose_all, exposure_repeat_seconds, insert_exposure, is_recent, is_treated,
}
use retail_segmentation.Experiments.Chains.{after_check, after_raise}

abbrev pub row_of : List Assigned → ℕ → Option Assigned
row_of rows i = find_first (λ (a : Assigned). a.assignment_id == i) rows

abbrev pub in_groups : List Group → Assigned → Option Group
in_groups groups a = find_first (λ (g : Group). g.group_id == a.group_id) groups

-- The assignment of this id stands in a treatment arm.
abbrev pub Treated : List Assigned → List Group → ℕ → Type 0
Treated rows groups i =
    (a : Assigned) × (row_of rows i ≡ some a) × (is_treated (in_groups groups a) ≡ true)

-- `UNIQUE (experiment_id, customer_id)`
abbrev pub Apart : Assigned → Assigned → Type 0
Apart a b = is_assigned b.experiment_id b.customer_id a ≡ false

-- The minute between two exposures of one assignment.
abbrev pub Spaced : Exposure → Exposure → Type 0
Spaced x y =
    (x.assignment_id ≢ y.assignment_id) ⊎ (x.exposed_at + exposure_repeat_seconds ≤ y.exposed_at)

pub record IsSound (lab : Lab) : Type 0 where
  pub fresh : All (λ (a : Assigned). a.assignment_id < lab.next_assignment_id) lab.assignments
  pub keyed :
      All (λ (a : Assigned). row_of lab.assignments a.assignment_id ≡ some a) lab.assignments
  pub once : Pairwise Apart lab.assignments
  pub treated :
      All (λ (x : Exposure). Treated lab.assignments lab.groups x.assignment_id) lab.exposures
  pub spaced : Pairwise Spaced lab.exposures

Treated-more_rows :
    (rows new : List Assigned) (groups : List Group) (i : ℕ)
    → Treated rows groups i
    → Treated (rows ++ new) groups i
Treated-more_rows rows new groups i (a, found, t) =
    (a, find_first-append (λ (b : Assigned). b.assignment_id == i) rows new a found, t)

not_treated : is_treated none ≡ true → ⊥
not_treated h = cc

found_itself : (i : ℕ) (a : Assigned) → (if i == i then some a else none) ≡ some a
found_itself i a = ground arith

pub Treated-more_groups :
    (rows : List Assigned) (groups new : List Group) (i : ℕ)
    → Treated rows groups i
    → Treated rows (groups ++ new) i
Treated-more_groups rows groups new i (a, found, t) = elim (Option-cases (in_groups groups a)) [
  | inl gone ↦ absurd (not_treated (ap is_treated (sym gone) ∙ t))
  | inr (g, there) ↦ (
    a,
    found,
    ap is_treated (
          find_first-append (λ (h : Group). h.group_id == a.group_id) groups new g there
          ∙ sym there)
        ∙ t,
  )
]

with_assignment-IsSound :
    (lab : Lab) (i group customer : ℕ)
    → any (is_assigned i customer) lab.assignments ≡ false
    → IsSound lab
    → IsSound (with_assignment lab i group customer)
with_assignment-IsSound lab i group customer new s =
    let row : Assigned = record {
      assignment_id = lab.next_assignment_id;
      experiment_id = i;
      group_id = group;
      customer_id = customer;
      assigned_at = lab.now;
    } in
    record {
      fresh =
          All-append (λ (a : Assigned). a.assignment_id < lab.next_assignment_id + 1)
            lab.assignments (row ∷ [])
            (All-mono (λ (a : Assigned). a.assignment_id < lab.next_assignment_id) _
              (λ a h. omega arith) lab.assignments s.fresh)
            (omega arith, tt);
      keyed =
          All-append
            (λ (a : Assigned). row_of (lab.assignments ++ row ∷ []) a.assignment_id ≡ some a)
            lab.assignments (row ∷ [])
            (All-mono (λ (a : Assigned). row_of lab.assignments a.assignment_id ≡ some a) _
              (λ a h.
                find_first-append (λ (b : Assigned). b.assignment_id == a.assignment_id)
                  lab.assignments (row ∷ []) a h)
              lab.assignments s.keyed)
            (
              find_first-append_none (λ (b : Assigned). b.assignment_id == lab.next_assignment_id)
                    lab.assignments (row ∷ [])
                    (All-mono (λ (a : Assigned). a.assignment_id < lab.next_assignment_id)
                      (λ (a : Assigned). (a.assignment_id == lab.next_assignment_id) ≡ false)
                      (λ a h. ground arith) lab.assignments s.fresh)
                  ∙ found_itself lab.next_assignment_id row,
              tt,
            );
      once =
          Pairwise-snoc Apart lab.assignments row s.once
            (any-false (is_assigned i customer) lab.assignments new);
      treated =
          All-mono (λ (x : Exposure). Treated lab.assignments lab.groups x.assignment_id)
            (λ (x : Exposure). Treated (lab.assignments ++ row ∷ []) lab.groups x.assignment_id)
            (λ x h. Treated-more_rows lab.assignments (row ∷ []) lab.groups x.assignment_id h)
            lab.exposures s.treated;
      spaced = s.spaced;
    }

pub insert_assignments-IsSound :
    (i : ℕ) (rows : List (ℕ × ℕ)) (lab after : Lab)
    → insert_assignments i rows lab ≡ ok after
    → IsSound lab
    → IsSound after
unfolding insert_assignments
insert_assignments-IsSound i [] lab after h s = subst IsSound (ok_injective h) s
insert_assignments-IsSound i ((group, customer) ∷ rows) lab after h s =
    let (allowed, h1) =
      after_check
        (raise_if (any (is_assigned i customer) lab.assignments) customer_already_assigned
          >> raise_if (not (any (is_group i group) lab.groups)) unknown_group)
        (λ u. insert_assignments i rows (with_assignment lab i group customer)) after h in
    let (new, known_group) =
      after_raise (any (is_assigned i customer) lab.assignments) customer_already_assigned _ tt
        allowed in
    insert_assignments-IsSound i rows (with_assignment lab i group customer) after h1
      (with_assignment-IsSound lab i group customer new s)

not_recent :
    (lab : Lab) (i : ℕ) (x : Exposure)
    → is_recent lab i x ≡ false
    → Spaced x (record { assignment_id = i; exposed_at = lab.now })
not_recent lab i x h = elim (Bool-cases (x.assignment_id == i)) [
  | inl same ↦ inr (ground (arith, same, h))
  | inr other ↦ inl (ground (arith, other))
]

-- One exposure of an assignment that stands in a treatment arm.
pub insert_exposure-IsSound :
    (lab : Lab) (i : ℕ)
    → Treated lab.assignments lab.groups i
    → IsSound lab
    → IsSound (insert_exposure lab i).1
unfolding insert_exposure
insert_exposure-IsSound lab i t s = elim (Bool-cases (any (is_recent lab i) lab.exposures)) [
  | inl recent ↦ rw recent s
  | inr new ↦
      let x : Exposure = record { assignment_id = i; exposed_at = lab.now } in
      rw new (record {
        fresh = s.fresh;
        keyed = s.keyed;
        once = s.once;
        treated =
            All-append (λ (y : Exposure). Treated lab.assignments lab.groups y.assignment_id)
              lab.exposures (x ∷ []) s.treated (t, tt);
        spaced = Pairwise-snoc Spaced lab.exposures x s.spaced (
            All-mono (λ (y : Exposure). is_recent lab i y ≡ false) (λ (y : Exposure). Spaced y x)
              (λ y h. not_recent lab i y h) lab.exposures
              (any-false (is_recent lab i) lab.exposures new));
      })
]

-- The arms do not change on the way.
insert_exposure-Treated :
    (lab : Lab) (i j : ℕ)
    → Treated lab.assignments lab.groups j
    → Treated (insert_exposure lab i).1.assignments (insert_exposure lab i).1.groups j
unfolding insert_exposure
insert_exposure-Treated lab i j t = elim (Bool-cases (any (is_recent lab i) lab.exposures)) [
  | inl recent ↦ rw recent t
  | inr new ↦ rw new t
]

pub expose_all-IsSound :
    (lab : Lab) (ids : List ℕ) (n : ℕ)
    → All (λ i. Treated lab.assignments lab.groups i) ids
    → IsSound lab
    → IsSound (expose_all lab ids n).1
unfolding expose_all
expose_all-IsSound lab [] n h s = s
expose_all-IsSound lab (i ∷ ids) n h s =
    let after = (insert_exposure lab i).1 in
    expose_all-IsSound after ids (counted (insert_exposure lab i).0 n)
      (All-mono (λ j. Treated lab.assignments lab.groups j)
        (λ j. Treated after.assignments after.groups j) (λ j t. insert_exposure-Treated lab i j t)
        ids h.1)
      (insert_exposure-IsSound lab i h.0 s)
