-- ===== src/Experiments/Assignment.antt =====
-- Dealing a campaign's population into the arms of an experiment: `split`, `_plan`, `plan_assignment` and `assign` of
-- web/services/experiments.py. The shuffle of the generator seeded on the experiment is a parameter.
use retail_segmentation.Prelude.{
  ℕ, zero, suc, ◌+◌, ◌%◌, Bool, false, not, ◌&&◌, ◌||◌, Option, none, some, List, [], ◌∷◌, ◌++◌,
  map, any, keep, length, ltb, ◌==◌, sort_by, Result, ok, ◌>>=◌, ◌>>◌, raise_if,
}
use retail_segmentation.Experiments.Lab.{
  Assigned, Campaign, Experiment, Group, Kind, Lab, Refusal, active, is_status, is_control,
  get_campaign, get_experiment, groups_of, control_groups, treatment_groups, assignments_of,
  experiment_not_found, no_control_group, no_treatment_group, already_assigned, no_campaign,
  campaign_not_active, nobody_to_assign, too_few_customers, customer_already_assigned,
  unknown_group,
}
use retail_segmentation.Experiments.Campaigns.{known}

-- The label and the description of an arm are those of its group.
pub record Arm : Type 0 where
  pub group_id : ℕ
  pub kind : Kind
  pub customers : List ℕ
  pub name : List ℕ
  pub treatment_description : List ℕ

pub record AssignmentPlan : Type 0 where
  pub experiment : Experiment
  pub label_code : ℕ
  pub arms : List Arm

-- `list_groups` and `list_group_definitions`: control first, then by id.
unfoldable pub list_groups : Lab → ℕ → List Group
unfolding sort_by
list_groups lab i =
    sort_by
      (λ (g : Group) (h : Group).
        (is_control g.kind && not (is_control h.kind))
        || ((not (is_control h.kind) || is_control g.kind) && ltb g.group_id h.group_id))
      (groups_of lab i)

-- `read_target_population`
unfoldable pub read_target_population : Lab → ℕ → List ℕ
unfolding sort_by
read_target_population lab label = sort_by ltb (
    map (λ row. row.0)
      (keep (λ (row : ℕ × Option ℕ). elim row.1 [ none ↦ false | some l ↦ l == label ])
        lab.open_labels))

-- The lists of the arms so far, in the order of the groups: the dict `dealt`, whose keys differ.
abbrev pub Dealt : Type 0
Dealt = List (List ℕ)

-- `dealt[groups[index][0]].append(customer)`
unfoldable pub deal_to : ℕ → ℕ → Dealt → Dealt
deal_to index customer [] = []
deal_to zero customer (d ∷ dealt) = (d ++ customer ∷ []) ∷ dealt
deal_to (suc index) customer (d ∷ dealt) = d ∷ deal_to index customer dealt

-- The loop over the shuffled population from `position` on, for `n` groups.
unfoldable pub deal : ℕ → ℕ → List ℕ → Dealt → Dealt
unfolding deal_to
deal n position [] dealt = dealt
deal n position (customer ∷ order) dealt =
    deal n (suc position) order (deal_to (position % n) customer dealt)

unfoldable pub arms_of : List Group → Dealt → List Arm
arms_of [] dealt = []
arms_of (g ∷ groups) [] = []
arms_of (g ∷ groups) (d ∷ dealt) =
    record {
      group_id = g.group_id;
      kind = g.kind;
      customers = d;
      name = g.name;
      treatment_description = g.treatment_description;
    }
    ∷ arms_of groups dealt

abbrev pub nothing_dealt : List Group → Dealt
nothing_dealt groups = map (λ (g : Group). []) groups

abbrev pub is_active : Option Campaign → Bool
is_active none = false
is_active (some c) = is_status c.status active

abbrev pub label_of : Option Campaign → ℕ
label_of none = 0
label_of (some c) = c.label_code

-- The rows to write, `(group_id, customer_id)`, arm by arm.
unfoldable pub rows_of : List Arm → List (ℕ × ℕ)
rows_of [] = []
rows_of (arm ∷ arms) = map (λ c. (arm.group_id, c)) arm.customers ++ rows_of arms

abbrev pub is_assigned : ℕ → ℕ → Assigned → Bool
is_assigned i customer a = a.experiment_id == i && a.customer_id == customer

abbrev pub is_group : ℕ → ℕ → Group → Bool
is_group i group g = g.group_id == group && g.experiment_id == i

abbrev pub with_assignment : Lab → ℕ → ℕ → ℕ → Lab
with_assignment lab i group customer = record lab {
  next_assignment_id = lab.next_assignment_id + 1;
  assignments =
      lab.assignments
      ++ record {
        assignment_id = lab.next_assignment_id;
        experiment_id = i;
        group_id = group;
        customer_id = customer;
        assigned_at = lab.now;
      }
        ∷ [];
}

-- One INSERT for each row, under `UNIQUE (experiment_id, customer_id)` and the key of the groups.
unfoldable pub insert_assignments : ℕ → List (ℕ × ℕ) → Lab → Result Refusal Lab
insert_assignments i [] lab = ok lab
insert_assignments i ((group, customer) ∷ rows) lab =
    raise_if (any (is_assigned i customer) lab.assignments) customer_already_assigned
    >> raise_if (not (any (is_group i group) lab.groups)) unknown_group
    >> insert_assignments i rows (with_assignment lab i group customer)

module _ (shuffle : ℕ → List ℕ → List ℕ) where
  unfoldable pub split : ℕ → List ℕ → List Group → List Arm
  unfolding deal arms_of sort_by
  split experiment_id customers groups = arms_of groups (
      deal (length groups) 0 (shuffle experiment_id (sort_by ltb customers)) (nothing_dealt groups))

  unfoldable pub plan_assignment : Lab → ℕ → Result Refusal AssignmentPlan
  unfolding list_groups read_target_population split
  plan_assignment lab i = do
    experiment ← known (get_experiment lab i) experiment_not_found
    raise_if (not (assignments_of lab.assignments i == 0)) already_assigned
    campaign_id ← known experiment.campaign_id no_campaign
    let campaign = get_campaign lab campaign_id
    raise_if (not (is_active campaign)) campaign_not_active
    raise_if (control_groups lab i == 0 && not (treatment_groups lab i == 2)) (no_control_group i)
    raise_if (treatment_groups lab i == 0) (no_treatment_group i)
    let customers = read_target_population lab (label_of campaign)
    raise_if (length customers == 0) nobody_to_assign
    let groups = list_groups lab i
    raise_if (ltb (length customers) (length groups)) too_few_customers
    ok (record {
      experiment = experiment;
      label_code = label_of campaign;
      arms = split i customers groups;
    })

  unfoldable pub assign : Lab → ℕ → Result Refusal (AssignmentPlan × Lab)
  unfolding plan_assignment rows_of insert_assignments
  assign lab i = do
    experiment ← known (get_experiment lab i) experiment_not_found
    plan ← plan_assignment lab i
    after ← insert_assignments i (rows_of plan.arms) lab
    ok (plan, after)
