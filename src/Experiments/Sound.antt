-- ===== src/Experiments/Sound.antt =====
-- The rows of assignments and exposures over any order of the services' operations.
use mathlib.Core.Path.{subst}
use retail_segmentation.Prelude.{
  ℕ, ◌≡◌, sym, ap, ◌∙◌, Bool, true, false, ◌&&◌, Option, none, some, List, ◌++◌, keep, find_first,
  All, All-mono, All-both, All-keep, All-kept, All-map, All-sort_by, find_first_sound,
  some_injective, ltb, ◌==◌, arith, Option-cases, inl, inr,
}
use retail_segmentation.Experiments.Lab.{Assigned, Exposure, Group, Kind, Lab, is_control}
use retail_segmentation.Experiments.Assignment.{rows_of}
use retail_segmentation.Experiments.Exposure.{
  find_assignment, group_of, is_selected, is_treated, joined, list_assignment_ids, with_group,
}
use retail_segmentation.Experiments.Steps.{
  Step, created, redrafted, moved, set_up, changed, dealt, exposed, group_exposed, passed, Reach,
  here, next,
}
use retail_segmentation.Experiments.Shapes.{
  assign_ok, create_campaign_ok, create_experiment_ok, record_exposure_ok,
  record_group_exposures_ok, transition_ok, update_draft_ok, update_experiment_ok,
}
use retail_segmentation.Experiments.Controls.{
  IsSound, Treated, row_of, Treated-more_groups, insert_assignments-IsSound,
  insert_exposure-IsSound, expose_all-IsSound,
}

none_≢_some : {A : Type 0} (a : A) → ◌≡◌ {A = Option A} none (some a) → ⊥
none_≢_some a h = cc

not_control : (g : Group) → is_control g.kind ≡ false → is_treated (some g) ≡ true
not_control g h = ground arith

-- The assignment that a service has found in a treatment arm.
found-Treated :
    (lab : Lab) (i customer : ℕ) (found : ℕ × Kind)
    → IsSound lab
    → find_assignment lab i customer ≡ some found
    → is_control found.1 ≡ false
    → Treated lab.assignments lab.groups found.0
unfolding find_assignment
found-Treated lab i customer found s h treated =
    let p = λ (a : Assigned). a.experiment_id == i && a.customer_id == customer in
    elim (Option-cases (find_first p lab.assignments)) [
      | inl gone ↦ absurd (none_≢_some found (ap (λ o. with_group lab o) (sym gone) ∙ h))
      | inr (a, there) ↦
          let own =
            (find_first_sound p (λ b. row_of lab.assignments b.assignment_id ≡ some b)
              lab.assignments a s.keyed there).1 in
          let joins : joined a (group_of lab a) ≡ some found =
            ap (λ o. with_group lab o) (sym there) ∙ h in
          elim (Option-cases (group_of lab a)) [
            | inl lost ↦ absurd (none_≢_some found (ap (joined a) (sym lost) ∙ joins))
            | inr (g, its) ↦
                let e : (a.assignment_id, g.kind) ≡ found =
                  some_injective (ap (joined a) (sym its) ∙ joins) in
                (
                  a,
                  ap (λ (q : ℕ × Kind). row_of lab.assignments q.0) (sym e) ∙ own,
                  ap is_treated its
                      ∙ not_control g (ap (λ (q : ℕ × Kind). is_control q.1) e ∙ treated),
                )
          ]
    ]

third_of : (a b c d : Bool) → (a && b && c && d) ≡ true → c ≡ true
third_of a b c d h = ground arith

-- Those of a group are all of a treatment arm.
listed-Treated :
    (lab : Lab) (i group : ℕ) (customers : List ℕ)
    → IsSound lab
    → All (λ j. Treated lab.assignments lab.groups j) (list_assignment_ids lab i group customers)
unfolding list_assignment_ids
listed-Treated lab i group customers s =
    let p = λ (a : Assigned).
      a.experiment_id == i
      && a.group_id == group
      && is_treated (group_of lab a)
      && is_selected customers a.customer_id in
    let own = λ (a : Assigned). row_of lab.assignments a.assignment_id ≡ some a in
    All-sort_by ltb (λ j. Treated lab.assignments lab.groups j) _
      (All-map (λ j. Treated lab.assignments lab.groups j) (λ (a : Assigned). a.assignment_id)
        (keep p lab.assignments)
        (All-mono (λ (a : Assigned). (p a ≡ true) × own a)
          (λ (a : Assigned). Treated lab.assignments lab.groups a.assignment_id)
          (λ a h. (
            a,
            h.1,
            third_of (a.experiment_id == i) (a.group_id == group) (is_treated (group_of lab a))
                (is_selected customers a.customer_id) h.0,
          ))
          (keep p lab.assignments)
          (All-both (λ a. p a ≡ true) own (keep p lab.assignments) (All-kept p lab.assignments)
            (All-keep own p lab.assignments s.keyed))))

abbrev rows : Lab → ℕ × (List Assigned × (List Group × List Exposure))
rows lab = (lab.next_assignment_id, (lab.assignments, (lab.groups, lab.exposures)))

-- What a step that writes elsewhere leaves.
elsewhere : (lab after : Lab) → rows after ≡ rows lab → IsSound lab → IsSound after
elsewhere lab after h s =
    let IsSoundRows : ℕ × (List Assigned × (List Group × List Exposure)) → Type 0 = λ q.
      IsSound (record lab {
        next_assignment_id = q.0;
        assignments = q.1.0;
        groups = q.1.1.0;
        exposures = q.1.1.1;
      }) in
    let t = subst IsSoundRows (sym h) s in
    record {
      fresh = t.fresh;
      keyed = t.keyed;
      once = t.once;
      treated = t.treated;
      spaced = t.spaced;
    }

with_groups-IsSound :
    (lab after : Lab) (new : List Group)
    → rows after ≡ rows (record lab { groups = lab.groups ++ new })
    → IsSound lab
    → IsSound after
with_groups-IsSound lab after new h s =
    let wider : Lab = record lab { groups = lab.groups ++ new } in
    elsewhere wider after h (record {
      fresh = s.fresh;
      keyed = s.keyed;
      once = s.once;
      treated =
          All-mono (λ (x : Exposure). Treated lab.assignments lab.groups x.assignment_id)
            (λ (x : Exposure). Treated lab.assignments (lab.groups ++ new) x.assignment_id)
            (λ x t. Treated-more_groups lab.assignments lab.groups new x.assignment_id t)
            lab.exposures s.treated;
      spaced = s.spaced;
    })

Step-IsSound :
    (shuffle : ℕ → List ℕ → List ℕ) {lab after : Lab}
    → Step shuffle lab after
    → IsSound lab
    → IsSound after
Step-IsSound shuffle {lab} {after} (created input k h) s =
    elsewhere lab after (ap rows (create_campaign_ok lab input k after h)) s
Step-IsSound shuffle {lab} {after} (redrafted seen k input h) s =
    elsewhere lab after (ap rows (update_draft_ok seen lab k input after h)) s
Step-IsSound shuffle {lab} {after} (moved seen k action t h) s =
    elsewhere lab after (ap rows (transition_ok seen lab k action t after h).2) s
Step-IsSound shuffle {lab} {after} (set_up input k h) s =
    let (origin, n, written) = create_experiment_ok lab input k after h in
    with_groups-IsSound lab after _ (ap rows written) s
Step-IsSound shuffle {lab} {after} (changed k input h) s =
    elsewhere lab after (ap rows (update_experiment_ok lab k input after h).3) s
Step-IsSound shuffle {lab} {after} (dealt k plan h) s =
    insert_assignments-IsSound k (rows_of plan.arms) lab after
      (assign_ok shuffle lab k plan after h).1 s
Step-IsSound shuffle {lab} {after} (exposed k customer today written h) s =
    let (found, there, treated, after_it) =
      record_exposure_ok lab k customer today written after h in
    subst IsSound (sym after_it)
      (insert_exposure-IsSound lab found.0 (found-Treated lab k customer found s there treated) s)
Step-IsSound shuffle {lab} {after} (group_exposed k group raw today n h) s =
    let (customers, after_it) = record_group_exposures_ok lab k group raw today n after h in
    subst IsSound (sym after_it) (
      expose_all-IsSound lab (list_assignment_ids lab k group customers) 0
        (listed-Treated lab k group customers s) s)
Step-IsSound shuffle {lab} {after} (passed now today labels open_labels written) s =
    elsewhere lab after (ap rows written) s

-- Over any order of the services' operations, from tables whose rows are sound to later ones, the rows stay
-- sound: every exposure is of an assignment in a treatment arm, so no control is exposed; no customer has two
-- assignments of one experiment; assignment ids are not used again and find their own rows; and two exposures
-- of one assignment are at least a minute apart.
pub no_control_exposed :
    (shuffle : ℕ → List ℕ → List ℕ) {lab after : Lab}
    → Reach shuffle lab after
    → IsSound lab
    → IsSound after
no_control_exposed shuffle here s = s
no_control_exposed shuffle (next r step) s =
    Step-IsSound shuffle step (no_control_exposed shuffle r s)
