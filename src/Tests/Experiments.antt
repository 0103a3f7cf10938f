-- ===== src/Tests/Experiments.antt =====
-- An experiment from its assignment to an exposure, at concrete tables.
use mathlib.Core.List.{Perm, Mem, Nodup, Nodup-cons, not-mem-nil, mem-cons}
use mathlib.Core.List.Pairwise
use mathlib.Core.Logic.Or
use mathlib.Core.List.Perm
use retail_segmentation.Prelude.{
  err, ℕ, ◌≡◌, ◌≢◌, ◌≤◌, map, length, refl, true, none, some, List, [], ◌∷◌, ok, arith, sort_by,
}
use retail_segmentation.Experiments.Lab.{
  campaign_over, Assigned, Campaign, Experiment, Group, Lab, active, finished, control, treatment,
  observed, assignments_of, get_campaign, get_experiment,
}
use retail_segmentation.Experiments.Campaigns.{complete, may_become, target_of, transition}
use retail_segmentation.Segmentation.Window.{drop_space, is_space, strip}
use retail_segmentation.Experiments.Setup.{ExperimentInput, create_experiment}
use retail_segmentation.Experiments.Parsing.{
  digits_from, iso_date, iso_date-text, iso_text, whole_number,
}
use retail_segmentation.Experiments.Forms.{
  ExperimentForm, control_key, metric_of, origin_of, parse_whole, selected_control, treatment_key,
  treatments_of,
}
use retail_segmentation.Experiments.Validation.{validate_experiment}
use retail_segmentation.Experiments.Accepted.{IsCreationRefusal}
use retail_segmentation.Experiments.Submitted.{validate_experiment-IsCreationRefusal}
use retail_segmentation.Experiments.Assignment.{
  AssignmentPlan, arms_of, assign, deal, deal_to, insert_assignments, list_groups, plan_assignment,
  read_target_population, rows_of, split,
}
use retail_segmentation.Experiments.Exposure.{
  find_assignment, insert_exposure, record_exposure, validate_exposure_frame,
}
use retail_segmentation.Experiments.Steps.{Reach, here, next, dealt, exposed, moved}
use retail_segmentation.Experiments.Evolution.{Evolves, campaigns_evolve}
use retail_segmentation.Experiments.Frozen.{assigned_experiment-IsFrozen}
use retail_segmentation.Experiments.Frame.{IsFrozen}
use retail_segmentation.Experiments.Controls.{IsSound}
use retail_segmentation.Experiments.Sound.{no_control_exposed}
use retail_segmentation.Experiments.Arms.{IsFairSplit, group_ids, plan_balanced}
use retail_segmentation.Experiments.Agreement.{IsAgreed, assign-IsAgreed}

abbrev summer : Campaign
summer = record {
  campaign_id = 1;
  name = 11;
  label_code = 5;
  starts_on = 1;
  ends_on = 30;
  status = active;
}

abbrev trial : Experiment
trial = record {
  experiment_id = 1;
  name = 12;
  campaign_id = some 1;
  target_metric = 2;
  starts_on = 5;
  ends_on = none;
  conversion_window_days = 14;
  data_origin = observed;
}

abbrev control_group : Group
control_group = record {
  group_id = 1;
  experiment_id = 1;
  kind = control;
  name = 1 ∷ [];
  treatment_description = 2 ∷ [];
}

abbrev coupon_group : Group
coupon_group = record {
  group_id = 2;
  experiment_id = 1;
  kind = treatment;
  name = 3 ∷ [];
  treatment_description = 4 ∷ [];
}

abbrev bench : Lab
bench = record {
  now = 1000;
  today = 10;
  labels = 5 ∷ [];
  open_labels = (7, some 5) ∷ (9, none) ∷ (8, some 5) ∷ [];
  campaigns = summer ∷ [];
  experiments = trial ∷ [];
  groups = control_group ∷ coupon_group ∷ [];
  next_assignment_id = 1;
  assignments = [];
  exposures = [];
}

abbrev seventh : Assigned
seventh = record {
  assignment_id = 1;
  experiment_id = 1;
  group_id = 1;
  customer_id = 7;
  assigned_at = 1000;
}

abbrev eighth : Assigned
eighth = record {
  assignment_id = 2;
  experiment_id = 1;
  group_id = 2;
  customer_id = 8;
  assigned_at = 1000;
}

abbrev assigned : Lab
assigned = record bench { next_assignment_id = 3; assignments = seventh ∷ eighth ∷ [] }

abbrev delivered : Lab
delivered = record assigned { exposures = record { assignment_id = 2; exposed_at = 1000 } ∷ [] }

abbrev over : Lab
over = record delivered { campaigns = record summer { status = finished } ∷ [] }

-- A generator that leaves the order as it is.
abbrev in_order : ℕ → List ℕ → List ℕ
in_order i xs = xs

in_order-perm : (i : ℕ) (xs : List ℕ) → Perm (in_order i xs) xs
in_order-perm i xs = Perm.refl xs

abbrev two_arms : AssignmentPlan
two_arms = record {
  experiment = trial;
  label_code = 5;
  arms =
      record {
        group_id = 1;
        kind = control;
        customers = 7 ∷ [];
        name = 1 ∷ [];
        treatment_description = 2 ∷ [];
      }
      ∷ record {
        group_id = 2;
        kind = treatment;
        customers = 8 ∷ [];
        name = 3 ∷ [];
        treatment_description = 4 ∷ [];
      }
      ∷ [];
}

planned : plan_assignment in_order bench 1 ≡ ok two_arms
unfolding plan_assignment get_experiment get_campaign assignments_of list_groups
    read_target_population split deal deal_to arms_of sort_by
planned = refl

was_assigned : assign in_order bench 1 ≡ ok (two_arms, assigned)
unfolding assign plan_assignment get_experiment get_campaign assignments_of list_groups
    read_target_population split deal deal_to arms_of sort_by rows_of insert_assignments
was_assigned = refl

was_exposed : record_exposure assigned 1 8 none ≡ ok (true, delivered)
unfolding record_exposure get_experiment get_campaign find_assignment validate_exposure_frame
    insert_exposure
was_exposed = refl

was_completed : transition delivered delivered 1 complete ≡ ok (finished, over)
unfolding transition get_campaign may_become target_of
was_completed = refl

after_assignment : Reach in_order assigned over
after_assignment =
    next (next here (exposed 1 8 none true was_exposed))
      (moved delivered 1 complete finished was_completed)

whole_life : Reach in_order bench over
whole_life =
    next (next (next here (dealt 1 two_arms was_assigned)) (exposed 1 8 none true was_exposed))
      (moved delivered 1 complete finished was_completed)

bench-IsSound : IsSound bench
bench-IsSound = record { fresh = tt; keyed = tt; once = tt; treated = tt; spaced = tt }

no_control_exposed_example : IsSound over
no_control_exposed_example = no_control_exposed in_order whole_life bench-IsSound

campaigns_evolve_example : Evolves (summer ∷ []) (record summer { status = finished } ∷ [])
campaigns_evolve_example = campaigns_evolve in_order whole_life

found_trial : get_experiment assigned 1 ≡ some trial
unfolding get_experiment
found_trial = refl

some_assigned : assignments_of (seventh ∷ eighth ∷ []) 1 ≢ 0
unfolding assignments_of
some_assigned = omega arith

assigned_experiment-IsFrozen_example : IsFrozen 1 trial assigned over
assigned_experiment-IsFrozen_example =
    assigned_experiment-IsFrozen in_order 1 trial after_assignment found_trial some_assigned

plan_balanced_example :
    (group_ids two_arms.arms ≡ map (λ (g : Group). g.group_id) (list_groups bench 1))
    × IsFairSplit (read_target_population bench 5) two_arms.arms
    × (length two_arms.arms ≤ length (read_target_population bench 5))
plan_balanced_example = plan_balanced in_order in_order-perm bench 1 two_arms planned

not_in : (a b : ℕ) (l : List ℕ) → a ≢ b → ¬ Mem a l → ¬ Mem a (b ∷ l)
not_in a b l h k m = Or.elim (λ x y. absurd x) (mem-cons.0 m) h k

customers_once : Nodup {A = ℕ} (7 ∷ 9 ∷ 8 ∷ [])
customers_once = Nodup-cons.1 (
  not_in 7 9 (8 ∷ []) (omega arith) (not_in 7 8 [] (omega arith) not-mem-nil),
  Nodup-cons.1 (not_in 9 8 [] (omega arith) not-mem-nil, Nodup-cons.1 (not-mem-nil, Pairwise.nil)),
)

assign-IsAgreed_example :
    IsAgreed bench (plan_assignment in_order bench 1) (assign in_order bench 1)
assign-IsAgreed_example = assign-IsAgreed in_order in_order-perm bench 1 customers_once

-- The form of a second experiment on a campaign that is over.
abbrev second_form : ExperimentForm
second_form = record {
  name = b'B' ∷ [];
  campaign_id = b'1' ∷ [];
  target_metric = "CONVERSION";
  starts_on = iso_text 2026 1 5;
  ends_on = [];
  conversion_window_days = b'1' ∷ b'4' ∷ [];
  data_origin = some "OBSERVED";
  treatment_groups = some (b'1' ∷ []);
  control_group = none;
  control_mode = none;
  group_names = [];
  group_descriptions = [];
  name_fields = (control_key, b'C' ∷ []) ∷ (treatment_key 1, b'T' ∷ []) ∷ [];
  description_fields = (control_key, b'n' ∷ []) ∷ (treatment_key 1, b'y' ∷ []) ∷ [];
}

abbrev second_input : ExperimentInput
second_input = record {
  name = 1;
  campaign_id = some 1;
  target_metric = 1;
  starts_on = 20260105;
  ends_on = none;
  conversion_window_days = 14;
  data_origin = some observed;
  treatment_groups = some 1;
  has_control = true;
  group_definitions = (b'C' ∷ [], b'n' ∷ []) ∷ (b'T' ∷ [], b'y' ∷ []) ∷ [];
}

was_valid : validate_experiment length second_form ≡ ok second_input
unfolding validate_experiment selected_control strip drop_space is_space parse_whole whole_number
    digits_from iso_date metric_of origin_of treatments_of
was_valid = refl

was_refused : create_experiment over second_input ≡ err campaign_over
unfolding create_experiment get_campaign
was_refused = refl

validate_experiment-IsCreationRefusal_example : IsCreationRefusal campaign_over
validate_experiment-IsCreationRefusal_example =
    validate_experiment-IsCreationRefusal length second_form second_input over campaign_over refl
      was_valid was_refused

iso_date-text_example : iso_date (iso_text 2024 2 29) ≡ some 20240229
iso_date-text_example = iso_date-text 2024 2 29 (omega arith) (omega arith) refl
