-- ===== src/Experiments/Setup.antt =====
-- Creating and editing an experiment: web/services/experiments.py, with the statements of web/db/experiments.py. The
-- lock of the experiment's row makes each of these one step.
use mathlib.Core.List.{zip}
use retail_segmentation.Prelude.{
  ℕ, suc, Bool, true, false, not, ◌&&◌, ◌||◌, Option, none, some, List, [], ◌∷◌, ◌++◌, map, any,
  length, replicate, ltb, ◌==◌, if◌then◌else◌, Result, ok, err, ◌>>=◌, ◌>>◌, raise_if,
}
use retail_segmentation.Segmentation.Window.{strip}
use retail_segmentation.Experiments.Lab.{
  Campaign, Experiment, Group, Kind, Lab, Origin, Refusal, control, treatment, draft, active,
  finished, cancelled, get_campaign, get_experiment, assignments_of, next_id, same_option,
  experiment_not_found, no_such_campaign, refused_by_constraint, campaign_over,
  duplicate_experiment, incomplete_experiment, bad_definitions, window_fixed, metric_fixed,
  campaign_fixed, start_fixed, end_fixed,
}
use retail_segmentation.Experiments.Campaigns.{known}

-- Only a new experiment chooses its origin, its number of treatments, its control and its arms.
pub record ExperimentInput : Type 0 where
  pub name : ℕ
  pub campaign_id : Option ℕ
  pub target_metric : ℕ
  pub starts_on : ℕ
  pub ends_on : Option ℕ
  pub conversion_window_days : ℕ
  pub data_origin : Option Origin
  pub treatment_groups : Option ℕ
  pub has_control : Bool
  pub group_definitions : List (List ℕ × List ℕ)

-- `status in _CAMPAIGN_OVER`
abbrev pub is_over : Option Campaign → Bool
is_over none = false
is_over (some c) = elim c.status [
  | draft ↦ false
  | active ↦ false
  | finished ↦ true
  | cancelled ↦ true
]

abbrev pub refuse_over_campaign : Lab → Option ℕ → Refusal → Result Refusal Unit
refuse_over_campaign lab none e = ok tt
refuse_over_campaign lab (some i) e = raise_if (is_over (get_campaign lab i)) e

abbrev pub ends_early : ℕ → Option ℕ → Bool
ends_early starts_on none = false
ends_early starts_on (some ends_on) = ltb ends_on starts_on

abbrev pub is_known_campaign : Lab → Option ℕ → Bool
is_known_campaign lab none = true
is_known_campaign lab (some i) = any (λ (c : Campaign). c.campaign_id == i) lab.campaigns

-- What the constraints of the table refuse of a row.
abbrev pub experiment_refused : Lab → ExperimentInput → Result Refusal Unit
experiment_refused lab input =
    raise_if (ends_early input.starts_on input.ends_on || input.conversion_window_days == 0)
      refused_by_constraint
    >> raise_if (not (is_known_campaign lab input.campaign_id)) no_such_campaign

abbrev pub is_blank : List ℕ → Bool
is_blank text = elim (strip text) [ [] ↦ true | _ ∷ _ ↦ false ]

abbrev pub kinds_of : Bool → ℕ → List Kind
kinds_of true n = control ∷ replicate n treatment
kinds_of false n = replicate n treatment

-- The checks of `create_experiment` of web/db/experiments.py, each a ValueError.
unfoldable pub check_definitions : Bool → ℕ → List (List ℕ × List ℕ) → Result Refusal Unit
unfolding strip
check_definitions has_control treatments definitions = do
  raise_if (not has_control && not (treatments == 2)) bad_definitions
  raise_if (treatments == 0) bad_definitions
  raise_if (not (length definitions == length (kinds_of has_control treatments))) bad_definitions
  raise_if (any (λ d. is_blank d.0 || is_blank d.1) definitions) bad_definitions

-- The rows of the arms, numbered from the last group of the table.
unfoldable pub new_groups : ℕ → ℕ → List (Kind × (List ℕ × List ℕ)) → List Group
new_groups i next [] = []
new_groups i next ((kind, (name, description)) ∷ rest) =
    record {
      group_id = next;
      experiment_id = i;
      kind = kind;
      name = name;
      treatment_description = description;
    }
    ∷ new_groups i (suc next) rest

abbrev pub is_same_experiment : ExperimentInput → Experiment → Bool
is_same_experiment input e =
    e.name == input.name
    && same_option e.campaign_id input.campaign_id
    && e.starts_on == input.starts_on

abbrev pub new_experiment : ℕ → ExperimentInput → Origin → Experiment
new_experiment i input origin = record {
  experiment_id = i;
  name = input.name;
  campaign_id = input.campaign_id;
  target_metric = input.target_metric;
  starts_on = input.starts_on;
  ends_on = input.ends_on;
  conversion_window_days = input.conversion_window_days;
  data_origin = origin;
}

abbrev pub complete : {A : Type 0} → Option A → Result Refusal A
complete none = err incomplete_experiment
complete (some a) = ok a

abbrev pub no_definitions : List (List ℕ × List ℕ) → Bool
no_definitions [] = true
no_definitions (d ∷ ds) = false

-- The tables with the new experiment and its arms.
abbrev pub with_experiment : Lab → ExperimentInput → Origin → ℕ → Lab
with_experiment lab input origin treatments =
    let i = next_id (map (λ (e : Experiment). e.experiment_id) lab.experiments) in
    let first_group = next_id (map (λ (g : Group). g.group_id) lab.groups) in
    record lab {
      experiments = lab.experiments ++ new_experiment i input origin ∷ [];
      groups =
          lab.groups
          ++ new_groups i first_group
              (zip (kinds_of input.has_control treatments) input.group_definitions);
    }

unfoldable pub create_experiment : Lab → ExperimentInput → Result Refusal (ℕ × Lab)
unfolding check_definitions new_groups
create_experiment lab input = do
  origin ← complete input.data_origin
  treatments ← complete input.treatment_groups
  raise_if (no_definitions input.group_definitions) incomplete_experiment
  refuse_over_campaign lab input.campaign_id campaign_over
  check_definitions input.has_control treatments input.group_definitions
  raise_if (any (is_same_experiment input) lab.experiments) duplicate_experiment
  experiment_refused lab input
  ok (
    next_id (map (λ (e : Experiment). e.experiment_id) lab.experiments),
    with_experiment lab input origin treatments,
  )

-- What the assignments of an experiment fix.
unfoldable pub check_fixed : Experiment → ExperimentInput → Result Refusal Unit
check_fixed current input = do
  raise_if (not (input.conversion_window_days == current.conversion_window_days)) window_fixed
  raise_if (not (input.target_metric == current.target_metric)) metric_fixed
  raise_if (not (same_option input.campaign_id current.campaign_id)) campaign_fixed
  raise_if (not (input.starts_on == current.starts_on)) start_fixed
  raise_if (not (same_option input.ends_on current.ends_on)) end_fixed

-- Another campaign than the one it has must not be over.
abbrev pub check_campaign : Lab → Experiment → ExperimentInput → Result Refusal Unit
check_campaign lab current input =
    if same_option input.campaign_id current.campaign_id
    then ok tt
    else refuse_over_campaign lab input.campaign_id campaign_over

abbrev pub edited : ℕ → ExperimentInput → Experiment → Experiment
edited i input e =
    if e.experiment_id == i
    then record e {
      name = input.name;
      campaign_id = input.campaign_id;
      target_metric = input.target_metric;
      starts_on = input.starts_on;
      ends_on = input.ends_on;
      conversion_window_days = input.conversion_window_days;
    }
    else e

unfoldable pub update_experiment : Lab → ℕ → ExperimentInput → Result Refusal Lab
unfolding check_fixed
update_experiment lab i input = do
  current ← known (get_experiment lab i) experiment_not_found
  let assigned = not (assignments_of lab.assignments i == 0)
  if assigned then check_fixed current input else check_campaign lab current input
  experiment_refused lab input
  ok (record lab { experiments = map (edited i input) lab.experiments })
