-- ===== src/Experiments/Frozen.antt =====
-- What an assignment fixes of its experiment: the metric, the dates, the window, the campaign and the arms.
use mathlib.Core.List.{zip}
use retail_segmentation.Prelude.{
  ℕ, All-mono, ◌≡◌, ◌≢◌, refl, sym, ap, ◌∙◌, false, some, List, [], ◌∷◌, map, length, ◌==◌, arith,
  ok, Bool-cases, inl, inr, ==_iff, some_injective, find_first-append, find_first-map,
  count_if-keep,
}
use retail_segmentation.Experiments.Lab.{
  Assigned, Experiment, Group, Lab, Origin, get_experiment, assignments_of, next_id,
}
use retail_segmentation.Experiments.Setup.{
  kinds_of, with_experiment, update_experiment, ExperimentInput, check_fixed, edited,
  new_experiment,
}
use retail_segmentation.Experiments.Assignment.{AssignmentPlan, assign, rows_of}
use retail_segmentation.Experiments.Exposure.{list_assignment_ids}
use retail_segmentation.Experiments.Steps.{
  Step, created, redrafted, moved, set_up, changed, dealt, exposed, group_exposed, passed, Reach,
  here, next,
}
use retail_segmentation.Experiments.Shapes.{
  assign_ok, create_campaign_ok, create_experiment_ok, plan_assignment_ok, record_exposure_ok,
  record_group_exposures_ok, transition_ok, update_draft_ok, update_experiment_ok,
}
use retail_segmentation.Experiments.Writes.{
  expose_all_frame, insert_assignments_ok, insert_exposure_frame,
}
use retail_segmentation.Experiments.Frame.{
  All-other_groups, IsFrozen, SameFrame, SameFrame-trans, check_fixed-edited, edited-id,
  edited-other, find_first-le_next, id_of, keep-append_others, rows_for, tables, untouched,
}

module _ (shuffle : ℕ → List ℕ → List ℕ) (i : ℕ) (e : Experiment) (lab after : Lab) where
  set_up-IsFrozen :
      (input : ExperimentInput) (origin : Origin) (n : ℕ)
      → get_experiment lab i ≡ some e
      → after ≡ with_experiment lab input origin n
      → IsFrozen i e lab after
  unfolding get_experiment
  set_up-IsFrozen input origin n found written =
      let j = next_id (map (λ (x : Experiment). x.experiment_id) lab.experiments) in
      let other : (j == i) ≡ false = ground (arith, find_first-le_next i lab.experiments e found) in
      rw written (
        (
          e,
          find_first-append (λ (x : Experiment). x.experiment_id == i) lab.experiments
              (new_experiment j input origin ∷ []) e found,
          refl,
        ),
        refl,
        keep-append_others (λ (g : Group). g.experiment_id == i) lab.groups _
            (All-other_groups i j _ (zip (kinds_of input.has_control n) input.group_definitions)
              other),
      )

  changed-IsFrozen :
      (j : ℕ) (input : ExperimentInput)
      → get_experiment lab i ≡ some e
      → assignments_of lab.assignments i ≢ 0
      → update_experiment lab j input ≡ ok after
      → IsFrozen i e lab after
  unfolding get_experiment
  changed-IsFrozen j input found assigned h =
      let (current, there, kept, written) = update_experiment_ok lab j input after h in
      let same : SameFrame e (edited j input e) = elim (Bool-cases (e.experiment_id == j)) [
        | inl t ↦
            let ji : j ≡ i =
              sym ((==_iff e.experiment_id j).0 t) ∙ id_of i lab.experiments e found in
            let it : current ≡ e =
              some_injective (sym there ∙ ap (λ k. get_experiment lab k) ji ∙ found) in
            let some_rows : (assignments_of lab.assignments j == 0) ≡ false =
              ground (arith, ap (λ k. assignments_of lab.assignments k) ji, assigned) in
            let fixed : check_fixed current input ≡ ok tt = rw some_rows at kept in
            check_fixed-edited j input e (ap (λ c. check_fixed c input) (sym it) ∙ fixed)
        | inr f ↦ edited-other j input e f
      ] in
      rw written (
        (
          edited j input e,
          find_first-map (λ (x : Experiment). x.experiment_id == i) (edited j input)
              (edited-id i j input) lab.experiments e found,
          same,
        ),
        refl,
        refl,
      )

  dealt-IsFrozen :
      (j : ℕ) (plan : AssignmentPlan)
      → get_experiment lab i ≡ some e
      → assignments_of lab.assignments i ≢ 0
      → assign shuffle lab j ≡ ok (plan, after)
      → IsFrozen i e lab after
  unfolding get_experiment
  dealt-IsFrozen j plan found assigned h =
      let (planned, inserted) = assign_ok shuffle lab j plan after h in
      let (label, arms, coded, none_yet, enough, treated) =
        plan_assignment_ok shuffle lab j plan planned in
      let (new, all, written) = insert_assignments_ok j (rows_of plan.arms) lab after inserted in
      let other : (j == i) ≡ false = elim (Bool-cases (j == i)) [
        | inl t ↦ absurd (
            assigned
              (ap (λ k. assignments_of lab.assignments k) (sym ((==_iff j i).0 t)) ∙ none_yet))
        | inr f ↦ f
      ] in
      rw written (
        (e, found, refl),
        keep-append_others (λ (a : Assigned). a.experiment_id == i) lab.assignments new
            (All-mono (λ (a : Assigned). a.experiment_id ≡ j)
              (λ (a : Assigned). (a.experiment_id == i) ≡ false) (λ a q. ap (λ k. k == i) q ∙ other)
              new all),
        refl,
      )

  Step-IsFrozen :
      Step shuffle lab after
      → get_experiment lab i ≡ some e
      → assignments_of lab.assignments i ≢ 0
      → IsFrozen i e lab after
  Step-IsFrozen (created input k h) found assigned =
      untouched i e lab after (ap tables (create_campaign_ok lab input k after h)) found
  Step-IsFrozen (redrafted seen k input h) found assigned =
      untouched i e lab after (ap tables (update_draft_ok seen lab k input after h)) found
  Step-IsFrozen (moved seen k action s h) found assigned =
      let (current, m, written) = transition_ok seen lab k action s after h in
      untouched i e lab after (ap tables written) found
  Step-IsFrozen (set_up input k h) found assigned =
      let (origin, n, written) = create_experiment_ok lab input k after h in
      set_up-IsFrozen input origin n found written
  Step-IsFrozen (changed j input h) found assigned = changed-IsFrozen j input found assigned h
  Step-IsFrozen (dealt j plan h) found assigned = dealt-IsFrozen j plan found assigned h
  Step-IsFrozen (exposed j customer today written h) found assigned =
      let (arm, there, treated, after_it) =
        record_exposure_ok lab j customer today written after h in
      untouched i e lab after (ap tables (after_it ∙ insert_exposure_frame lab arm.0)) found
  Step-IsFrozen (group_exposed j group raw today n h) found assigned =
      let (customers, after_it) = record_group_exposures_ok lab j group raw today n after h in
      untouched i e lab after
        (ap tables (after_it ∙ expose_all_frame lab (list_assignment_ids lab j group customers) 0))
        found
  Step-IsFrozen (passed now today labels open_labels written) found assigned =
      untouched i e lab after (ap tables written) found

-- The number of rows is that of the kept ones.
still_assigned :
    (i : ℕ) (lab mid : Lab)
    → rows_for mid i ≡ rows_for lab i
    → assignments_of lab.assignments i ≢ 0
    → assignments_of mid.assignments i ≢ 0
unfolding assignments_of
still_assigned i lab mid same h k =
    let p = λ (a : Assigned). a.experiment_id == i in
    h (
      count_if-keep p lab.assignments
      ∙ ap (λ (l : List Assigned). length l) (sym same)
      ∙ sym (count_if-keep p mid.assignments)
      ∙ k)

-- Once an experiment has an assignment, whatever operations follow and in whatever order, its campaign,
-- metric, dates, window and origin, its assignments and its groups stay as they are; only its name may
-- differ.
pub assigned_experiment-IsFrozen :
    (shuffle : ℕ → List ℕ → List ℕ) (i : ℕ) (e : Experiment) {lab after : Lab}
    → Reach shuffle lab after
    → get_experiment lab i ≡ some e
    → assignments_of lab.assignments i ≢ 0
    → IsFrozen i e lab after
assigned_experiment-IsFrozen shuffle i e {lab} here found assigned = ((e, found, refl), refl, refl)
assigned_experiment-IsFrozen shuffle i e {lab} (next {mid} {after} r s) found assigned =
    let ((d, there, frame), rows, arms) =
      assigned_experiment-IsFrozen shuffle i e r found assigned in
    let ((c, later, frame'), rows', arms') =
      Step-IsFrozen shuffle i d mid after s there (still_assigned i lab mid rows assigned) in
    ((c, later, SameFrame-trans e d c frame frame'), rows' ∙ rows, arms' ∙ arms)
