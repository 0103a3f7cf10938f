-- ===== src/Experiments/Lab.antt =====
-- The tables of campaigns and experiments, and the refusals of web/services/campaigns.py and
-- web/services/experiments.py. A text that is only compared is a number, and so is a date.
use Prim.Native.Nat.{max}
use mathlib.Core.List.{foldr}
use retail_segmentation.Prelude.{
  ℕ, ◌+◌, Bool, true, false, not, Option, none, some, List, keep, count_if, find_first, ◌==◌,
}

pub data Status : Type 0 where
  draft active finished cancelled : Status

pub data Kind : Type 0 where
  control treatment : Kind

pub data Origin : Type 0 where
  observed seeded injected : Origin

-- The exceptions of the services, one constructor for each place that raises.
pub data Refusal : Type 0 where
  campaign_not_found experiment_not_found : Refusal
  duplicate_draft no_such_label no_such_campaign end_before_start : Refusal
  not_a_draft left_draft move_not_allowed campaign_ended status_changed : Refusal
  no_control_group no_treatment_group : (experiment_id : ℕ) → Refusal
  refused_by_constraint campaign_over duplicate_experiment incomplete_experiment bad_definitions :
      Refusal
  window_fixed metric_fixed campaign_fixed start_fixed end_fixed : Refusal
  already_assigned no_campaign campaign_not_active nobody_to_assign too_few_customers : Refusal
  customer_already_assigned unknown_group : Refusal
  customer_not_assigned in_control_group not_started ended over_for_exposure : Refusal
  not_an_arm none_selected malformed_customer not_of_the_arm : Refusal

pub record Campaign : Type 0 where
  pub campaign_id : ℕ
  pub name : ℕ
  pub label_code : ℕ
  pub starts_on : ℕ
  pub ends_on : ℕ
  pub status : Status

pub record Experiment : Type 0 where
  pub experiment_id : ℕ
  pub name : ℕ
  pub campaign_id : Option ℕ
  pub target_metric : ℕ
  pub starts_on : ℕ
  pub ends_on : Option ℕ
  pub conversion_window_days : ℕ
  pub data_origin : Origin

pub record Group : Type 0 where
  pub group_id : ℕ
  pub experiment_id : ℕ
  pub kind : Kind
  pub name : List ℕ
  pub treatment_description : List ℕ

pub record Assigned : Type 0 where
  pub assignment_id : ℕ
  pub experiment_id : ℕ
  pub group_id : ℕ
  pub customer_id : ℕ
  pub assigned_at : ℕ

pub record Exposure : Type 0 where
  pub assignment_id : ℕ
  pub exposed_at : ℕ

-- `open_labels` are the customers' open history rows, which segmentation runs write.
pub record Lab : Type 0 where
  pub now : ℕ
  pub today : ℕ
  pub labels : List ℕ
  pub open_labels : List (ℕ × Option ℕ)
  pub campaigns : List Campaign
  pub experiments : List Experiment
  pub groups : List Group
  pub next_assignment_id : ℕ
  pub assignments : List Assigned
  pub exposures : List Exposure

abbrev pub is_status : Status → Status → Bool
is_status draft draft = true
is_status active active = true
is_status finished finished = true
is_status cancelled cancelled = true
is_status _ _ = false

abbrev pub is_control : Kind → Bool
is_control control = true
is_control treatment = false

abbrev pub same_option : Option ℕ → Option ℕ → Bool
same_option none none = true
same_option (some a) (some b) = a == b
same_option _ _ = false

unfoldable pub get_campaign : Lab → ℕ → Option Campaign
get_campaign lab i = find_first (λ (c : Campaign). c.campaign_id == i) lab.campaigns

-- The row of an experiment; its counts are the functions below.
unfoldable pub get_experiment : Lab → ℕ → Option Experiment
get_experiment lab i = find_first (λ (e : Experiment). e.experiment_id == i) lab.experiments

abbrev pub groups_of : Lab → ℕ → List Group
groups_of lab i = keep (λ (g : Group). g.experiment_id == i) lab.groups

abbrev pub control_groups : Lab → ℕ → ℕ
control_groups lab i = count_if (λ (g : Group). is_control g.kind) (groups_of lab i)

abbrev pub treatment_groups : Lab → ℕ → ℕ
treatment_groups lab i = count_if (λ (g : Group). not (is_control g.kind)) (groups_of lab i)

-- `experiment.assignments`, the number of them.
unfoldable pub assignments_of : List Assigned → ℕ → ℕ
assignments_of rows i = count_if (λ (a : Assigned). a.experiment_id == i) rows

-- `COALESCE(max(id), 0) + 1`
abbrev pub next_id : List ℕ → ℕ
next_id ids = foldr max 0 ids + 1
