-- ===== src/Experiments/Shapes.antt =====
-- What each operation on campaigns and experiments has written when it returns, and what it has found by then.
use retail_segmentation.Prelude.{
  ℕ, ◌∙◌, ◌≤◌, length, find_first, ◌≡◌, ◌≢◌, Bool, true, false, not, ◌&&◌, Option, some, List, [],
  ◌∷◌, ◌++◌, map, any, ltb, ◌==◌, if◌then◌else◌, arith, ok, bind_ok, ok_injective, sym, ap,
}
use retail_segmentation.Experiments.Setup.{
  ExperimentInput, check_campaign, check_definitions, check_fixed, complete, create_experiment,
  edited, experiment_refused, is_same_experiment, no_definitions, refuse_over_campaign,
  update_experiment, with_experiment,
}
use retail_segmentation.Experiments.Assignment.{
  AssignmentPlan, assign, insert_assignments, is_active, label_of, list_groups, plan_assignment,
  read_target_population, rows_of, split,
}
use retail_segmentation.Experiments.Exposure.{
  day_of, expose_all, find_assignment, insert_exposure, list_assignment_ids, record_exposure,
  record_group_exposures, selected, validate_exposure_frame,
}
use retail_segmentation.Experiments.Lab.{
  Origin, control_groups, treatment_groups, incomplete_experiment, campaign_over,
  duplicate_experiment, experiment_not_found, already_assigned, no_campaign, campaign_not_active,
  no_control_group, no_treatment_group, nobody_to_assign, too_few_customers, customer_not_assigned,
  in_control_group, not_an_arm, not_of_the_arm, Experiment, Group, Kind, Lab, Status, draft,
  is_control, is_status, campaign_not_found, not_a_draft, left_draft, move_not_allowed,
  status_changed, get_campaign, get_experiment, assignments_of,
}
use retail_segmentation.Experiments.Campaigns.{
  Action, CampaignInput, drafted, create_campaign, campaign_refused, is_draft, rewritten,
  update_draft, is_current, moved_on, may_become, target_of, transition, started,
}
use retail_segmentation.Experiments.Chains.{after_check, after_known, after_raise, is_true}

pub create_campaign_ok :
    (lab : Lab) (input : CampaignInput) (i : ℕ) (after : Lab)
    → create_campaign lab input ≡ ok (i, after)
    → after ≡ record lab { campaigns = lab.campaigns ++ drafted i input ∷ [] }
unfolding create_campaign
create_campaign_ok lab input i after h = ground arith

pub update_draft_ok :
    (seen lab : Lab) (i : ℕ) (input : CampaignInput) (after : Lab)
    → update_draft seen lab i input ≡ ok after
    → after ≡ record lab { campaigns = map (rewritten i input) lab.campaigns }
unfolding update_draft
update_draft_ok seen lab i input after h =
    let (c, found, h1) = after_known (get_campaign seen i) campaign_not_found _ after h in
    let (was_draft, h2) = after_raise (not (is_status c.status draft)) not_a_draft _ after h1 in
    let (still, h3) = after_raise (not (any (is_draft i) lab.campaigns)) left_draft _ after h2 in
    let (fits, h4) = after_check (campaign_refused lab input) _ after h3 in sym (ok_injective h4)

pub transition_ok :
    (seen lab : Lab) (i : ℕ) (action : Action) (s : Status) (after : Lab)
    → transition seen lab i action ≡ ok (s, after)
    → (current : Status) × (may_become current s ≡ true)
      × (after ≡ record lab { campaigns = map (moved_on i current s) lab.campaigns })
unfolding transition
transition_ok seen lab i action s after h =
    let target = target_of action in
    let (c, found, h1) = after_known (get_campaign seen i) campaign_not_found _ (s, after) h in
    let (allowed, h2) =
      after_raise (not (may_become c.status target)) move_not_allowed _ (s, after) h1 in
    let (ready, h3) = after_check (started seen i c target) _ (s, after) h2 in
    let (unchanged, h4) =
      after_raise (not (any (is_current i c.status) lab.campaigns)) status_changed _ (s, after)
        h3 in
    let e = sym (ok_injective h4) in
    let e1 : s ≡ target = ap (λ q. q.0) e in
    let e2 : after ≡ record lab { campaigns = map (moved_on i c.status target) lab.campaigns } =
      ap (λ q. q.1) e in
    (
      c.status,
      ap (λ t. may_become c.status t) e1 ∙ is_true (may_become c.status target) allowed,
      e2 ∙ ap (λ t. record lab { campaigns = map (moved_on i c.status t) lab.campaigns }) (sym e1),
    )

pub create_experiment_ok :
    (lab : Lab) (input : ExperimentInput) (i : ℕ) (after : Lab)
    → create_experiment lab input ≡ ok (i, after)
    → (origin : Origin) × (treatments : ℕ) × (after ≡ with_experiment lab input origin treatments)
unfolding create_experiment
create_experiment_ok lab input i after h =
    let (origin, o, h1) = bind_ok (complete input.data_origin) _ (i, after) h in
    let (treatments, t, h2) = bind_ok (complete input.treatment_groups) _ (i, after) h1 in
    let (some_arms, h3) =
      after_raise (no_definitions input.group_definitions) incomplete_experiment _ (i, after) h2 in
    let (open_campaign, h4) =
      after_check (refuse_over_campaign lab input.campaign_id campaign_over) _ (i, after) h3 in
    let (defined, h5) =
      after_check (check_definitions input.has_control treatments input.group_definitions) _
        (i, after) h4 in
    let (new, h6) =
      after_raise (any (is_same_experiment input) lab.experiments) duplicate_experiment _ (i, after)
        h5 in
    let (fits, h7) = after_check (experiment_refused lab input) _ (i, after) h6 in
    (origin, treatments, ap (λ (q : ℕ × Lab). q.1) (sym (ok_injective h7)))

-- An edit of an experiment with assignments has passed `check_fixed`.
pub update_experiment_ok :
    (lab : Lab) (i : ℕ) (input : ExperimentInput) (after : Lab)
    → update_experiment lab i input ≡ ok after
    → (current : Experiment) × (get_experiment lab i ≡ some current)
      × ((if not (assignments_of lab.assignments i == 0)
            then check_fixed current input
            else check_campaign lab current input)
          ≡ ok tt)
      × (after ≡ record lab { experiments = map (edited i input) lab.experiments })
unfolding update_experiment
update_experiment_ok lab i input after h =
    let (current, found, h1) = after_known (get_experiment lab i) experiment_not_found _ after h in
    let test = not (assignments_of lab.assignments i == 0) in
    let (kept, h2) =
      after_check (if test then check_fixed current input else check_campaign lab current input) _
        after h1 in
    let (fits, h3) = after_check (experiment_refused lab input) _ after h2 in
    (current, found, kept, sym (ok_injective h3))

pub plan_assignment_ok :
    (shuffle : ℕ → List ℕ → List ℕ) (lab : Lab) (i : ℕ) (plan : AssignmentPlan)
    → plan_assignment shuffle lab i ≡ ok plan
    → (label : ℕ) × (plan.arms
        ≡ split shuffle i (read_target_population lab label) (list_groups lab i))
      × (label ≡ plan.label_code)
      × (assignments_of lab.assignments i ≡ 0)
      × (length (list_groups lab i) ≤ length (read_target_population lab label))
      × (treatment_groups lab i ≢ 0)
unfolding plan_assignment
plan_assignment_ok shuffle lab i plan h =
    let (e, found, h1) = after_known (get_experiment lab i) experiment_not_found _ plan h in
    let (none_yet, h2) =
      after_raise (not (assignments_of lab.assignments i == 0)) already_assigned _ plan h1 in
    let (cid, attached, h3) = after_known e.campaign_id no_campaign _ plan h2 in
    let c = get_campaign lab cid in
    let (running, h4) = after_raise (not (is_active c)) campaign_not_active _ plan h3 in
    let (k, h5) =
      after_raise (control_groups lab i == 0 && not (treatment_groups lab i == 2))
        (no_control_group i) _ plan h4 in
    let (t, h6) = after_raise (treatment_groups lab i == 0) (no_treatment_group i) _ plan h5 in
    let customers = read_target_population lab (label_of c) in
    let (some_left, h7) = after_raise (length customers == 0) nobody_to_assign _ plan h6 in
    let (enough, h8) =
      after_raise (ltb (length customers) (length (list_groups lab i))) too_few_customers _ plan
        h7 in
    (
      label_of c,
      ap (λ (q : AssignmentPlan). q.arms) (sym (ok_injective h8)),
      ap (λ (q : AssignmentPlan). q.label_code) (ok_injective h8),
      ground arith,
      ground arith,
      ground arith,
    )

pub assign_ok :
    (shuffle : ℕ → List ℕ → List ℕ) (lab : Lab) (i : ℕ) (plan : AssignmentPlan) (after : Lab)
    → assign shuffle lab i ≡ ok (plan, after)
    → (plan_assignment shuffle lab i ≡ ok plan)
      × (insert_assignments i (rows_of plan.arms) lab ≡ ok after)
unfolding assign
assign_ok shuffle lab i plan after h =
    let (e, found, h1) =
      after_known (get_experiment lab i) experiment_not_found _ (plan, after) h in
    let (p, planned, h2) = bind_ok (plan_assignment shuffle lab i) _ (plan, after) h1 in
    let (l, written, h3) = bind_ok (insert_assignments i (rows_of p.arms) lab) _ (plan, after) h2 in
    let e = ok_injective h3 in
    let e1 : p ≡ plan = ap (λ q. q.0) e in
    let e2 : l ≡ after = ap (λ q. q.1) e in
    (
      planned ∙ ap ok e1,
      ap (λ (q : AssignmentPlan). insert_assignments i (rows_of q.arms) lab) (sym e1)
          ∙ written
          ∙ ap ok e2,
    )

pub record_exposure_ok :
    (lab : Lab) (i customer : ℕ) (today : Option ℕ) (b : Bool) (after : Lab)
    → record_exposure lab i customer today ≡ ok (b, after)
    → (found : ℕ × Kind) × (find_assignment lab i customer ≡ some found)
      × (is_control found.1 ≡ false)
      × (after ≡ (insert_exposure lab found.0).1)
unfolding record_exposure
record_exposure_ok lab i customer today b after h =
    let (e, there, h1) = after_known (get_experiment lab i) experiment_not_found _ (b, after) h in
    let (found, assigned, h2) =
      after_known (find_assignment lab i customer) customer_not_assigned _ (b, after) h1 in
    let (treated, h3) = after_raise (is_control found.1) in_control_group _ (b, after) h2 in
    let (e', there', h4) =
      after_known (get_experiment lab i) experiment_not_found _ (b, after) h3 in
    let (within, h5) =
      after_check (validate_exposure_frame lab e' (day_of lab today)) _ (b, after) h4 in
    (found, assigned, treated, ap (λ (q : Bool × Lab). q.1) (sym (ok_injective h5)))

pub record_group_exposures_ok :
    (lab : Lab) (i group : ℕ) (raw : Option (List (Option ℕ))) (today : Option ℕ) (n : ℕ)
    (after : Lab)
    → record_group_exposures lab i group raw today ≡ ok (n, after)
    → (customers : List ℕ) × (after
        ≡ (expose_all lab (list_assignment_ids lab i group customers) 0).1)
unfolding record_group_exposures
record_group_exposures_ok lab i group raw today n after h =
    let (customers, read, h1) = bind_ok (selected raw) _ (n, after) h in
    let (e, there, h2) = after_known (get_experiment lab i) experiment_not_found _ (n, after) h1 in
    let (arm, found, h3) =
      after_known
        (find_first (λ (g : Group). g.group_id == group && g.experiment_id == i) lab.groups)
        not_an_arm _ (n, after) h2 in
    let (treated, h4) = after_raise (is_control arm.kind) in_control_group _ (n, after) h3 in
    let (e', there', h5) =
      after_known (get_experiment lab i) experiment_not_found _ (n, after) h4 in
    let (within, h6) =
      after_check (validate_exposure_frame lab e' (day_of lab today)) _ (n, after) h5 in
    let ids = list_assignment_ids lab i group customers in
    let (all, h7) =
      after_raise (not (length customers == 0) && not (length ids == length customers))
        not_of_the_arm _ (n, after) h6 in
    (customers, ap (λ (q : ℕ × Lab). q.1) (sym (ok_injective h7)))
