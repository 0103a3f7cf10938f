-- ===== src/Experiments/Exposure.antt =====
-- Exposures: `record_exposure` and `record_group_exposures` of web/services/experiments.py. The trigger by which the
-- table refuses the exposure of a control once more is left out: what stands here is what the services refuse.
use retail_segmentation.Prelude.{
  ℕ, suc, ◌+◌, Bool, true, false, not, ◌&&◌, Option, none, some, List, [], ◌∷◌, ◌++◌, map, any,
  keep, find_first, length, ltb, ◌==◌, if◌then◌else◌, sort_by, Result, ok, err, ◌>>=◌, ◌>>◌,
  raise_if,
}
use retail_segmentation.Experiments.Lab.{
  Assigned, Experiment, Exposure, Group, Kind, Lab, Refusal, is_control, get_experiment,
  experiment_not_found, customer_not_assigned, in_control_group, not_started, ended,
  over_for_exposure, not_an_arm, none_selected, malformed_customer, not_of_the_arm,
}
use retail_segmentation.Experiments.Campaigns.{known}
use retail_segmentation.Experiments.Setup.{refuse_over_campaign}

abbrev pub exposure_repeat_seconds : ℕ
exposure_repeat_seconds = 60

-- The group of an assignment, by the join of the tables.
abbrev pub group_of : Lab → Assigned → Option Group
group_of lab a = find_first (λ (g : Group). g.group_id == a.group_id) lab.groups

abbrev pub joined : Assigned → Option Group → Option (ℕ × Kind)
joined a none = none
joined a (some g) = some (a.assignment_id, g.kind)

abbrev pub with_group : Lab → Option Assigned → Option (ℕ × Kind)
with_group lab none = none
with_group lab (some a) = joined a (group_of lab a)

unfoldable pub find_assignment : Lab → ℕ → ℕ → Option (ℕ × Kind)
find_assignment lab i customer = with_group lab (
    find_first (λ (a : Assigned). a.experiment_id == i && a.customer_id == customer)
      lab.assignments)

abbrev pub is_after : ℕ → Option ℕ → Bool
is_after today none = false
is_after today (some ends_on) = ltb ends_on today

unfoldable pub validate_exposure_frame : Lab → Experiment → ℕ → Result Refusal Unit
validate_exposure_frame lab experiment today =
    raise_if (ltb today experiment.starts_on) not_started
    >> raise_if (is_after today experiment.ends_on) ended
    >> refuse_over_campaign lab experiment.campaign_id over_for_exposure

-- `today if today is not None else business_date(connection)`
abbrev pub day_of : Lab → Option ℕ → ℕ
day_of lab none = lab.today
day_of lab (some today) = today

abbrev pub is_recent : Lab → ℕ → Exposure → Bool
is_recent lab assignment x =
    x.assignment_id == assignment && ltb lab.now (x.exposed_at + exposure_repeat_seconds)

-- Whether a row was written, and the tables.
unfoldable pub insert_exposure : Lab → ℕ → Bool × Lab
insert_exposure lab assignment =
    if any (is_recent lab assignment) lab.exposures then (false, lab) else (
      true,
      record lab {
        exposures =
            lab.exposures ++ record { assignment_id = assignment; exposed_at = lab.now } ∷ [];
      },
    )

unfoldable pub record_exposure : Lab → ℕ → ℕ → Option ℕ → Result Refusal (Bool × Lab)
unfolding find_assignment validate_exposure_frame insert_exposure
record_exposure lab i customer today = do
  locked ← known (get_experiment lab i) experiment_not_found
  found ← known (find_assignment lab i customer) customer_not_assigned
  raise_if (is_control found.1) in_control_group
  experiment ← known (get_experiment lab i) experiment_not_found
  validate_exposure_frame lab experiment (day_of lab today)
  ok (insert_exposure lab found.0)

abbrev pub is_treated : Option Group → Bool
is_treated none = false
is_treated (some g) = not (is_control g.kind)

-- An empty selection is every customer of the arm.
abbrev pub is_selected : List ℕ → ℕ → Bool
is_selected [] customer = true
is_selected (c ∷ customers) customer = any (λ d. d == customer) (c ∷ customers)

unfoldable pub list_assignment_ids : Lab → ℕ → ℕ → List ℕ → List ℕ
unfolding sort_by
list_assignment_ids lab i group customers = sort_by ltb (
    map (λ (a : Assigned). a.assignment_id)
      (keep
        (λ (a : Assigned).
          a.experiment_id == i
          && a.group_id == group
          && is_treated (group_of lab a)
          && is_selected customers a.customer_id)
        lab.assignments))

abbrev pub counted : Bool → ℕ → ℕ
counted true n = suc n
counted false n = n

-- The sum of the exposures that were written.
unfoldable pub expose_all : Lab → List ℕ → ℕ → ℕ × Lab
unfolding insert_exposure
expose_all lab [] n = (n, lab)
expose_all lab (assignment ∷ ids) n =
    let (written, after) = insert_exposure lab assignment in
    expose_all after ids (counted written n)

-- The selected ids, once each is a UUID; `none` stands for a text that is not one.
pub parse_all : List (Option ℕ) → Result Refusal (List ℕ)
parse_all [] = ok []
parse_all (none ∷ raw) = err malformed_customer
parse_all (some c ∷ raw) = do customers ← parse_all raw; ok (c ∷ customers)

abbrev pub selected : Option (List (Option ℕ)) → Result Refusal (List ℕ)
selected none = ok []
selected (some []) = err none_selected
selected (some (c ∷ raw)) = parse_all (c ∷ raw)

unfoldable pub record_group_exposures :
    Lab → ℕ → ℕ → Option (List (Option ℕ)) → Option ℕ → Result Refusal (ℕ × Lab)
unfolding validate_exposure_frame list_assignment_ids expose_all parse_all
record_group_exposures lab i group raw today = do
  customers ← selected raw
  locked ← known (get_experiment lab i) experiment_not_found
  arm ←
      known (find_first (λ (g : Group). g.group_id == group && g.experiment_id == i) lab.groups)
        not_an_arm
  raise_if (is_control arm.kind) in_control_group
  experiment ← known (get_experiment lab i) experiment_not_found
  validate_exposure_frame lab experiment (day_of lab today)
  let ids = list_assignment_ids lab i group customers
  raise_if (not (length customers == 0) && not (length ids == length customers)) not_of_the_arm
  ok (expose_all lab ids 0)
