-- ===== src/Experiments/Campaigns.antt =====
-- web/services/campaigns.py, with the statements of web/db/campaigns.py. A service reads the tables once (`seen`) and
-- writes to them as they are by then (`lab`): between the two, other units of work may commit.
use retail_segmentation.Prelude.{
  ℕ, Bool, true, false, not, ◌&&◌, Option, none, some, List, [], ◌∷◌, ◌++◌, map, any, ltb, ◌==◌,
  if◌then◌else◌, Result, ok, err, ◌>>=◌, ◌>>◌, raise_if, sort_by,
}
use retail_segmentation.Experiments.Lab.{
  Campaign, Experiment, Lab, Refusal, Status, draft, active, finished, cancelled, is_status,
  get_campaign, control_groups, treatment_groups, next_id, same_option, campaign_not_found,
  duplicate_draft, no_such_label, end_before_start, not_a_draft, left_draft, move_not_allowed,
  campaign_ended, status_changed, no_control_group, no_treatment_group,
}

pub record CampaignInput : Type 0 where
  pub name : ℕ
  pub label_code : ℕ
  pub starts_on : ℕ
  pub ends_on : ℕ

pub data Action : Type 0 where
  activate complete cancel : Action

-- `ACTIONS`
unfoldable pub target_of : Action → Status
target_of activate = active
target_of complete = finished
target_of cancel = cancelled

-- `target in TRANSITIONS[status]`
unfoldable pub may_become : Status → Status → Bool
may_become draft active = true
may_become draft cancelled = true
may_become active finished = true
may_become active cancelled = true
may_become _ _ = false

-- What the constraints of the table refuse of a row's label and dates.
abbrev pub campaign_refused : Lab → CampaignInput → Result Refusal Unit
campaign_refused lab input =
    raise_if (ltb input.ends_on input.starts_on) end_before_start
    >> raise_if (not (any (λ l. l == input.label_code) lab.labels)) no_such_label

abbrev pub is_same_draft : CampaignInput → Campaign → Bool
is_same_draft input c =
    c.name == input.name
    && c.label_code == input.label_code
    && c.starts_on == input.starts_on
    && c.ends_on == input.ends_on
    && is_status c.status draft

abbrev pub drafted : ℕ → CampaignInput → Campaign
drafted i input = record {
  campaign_id = i;
  name = input.name;
  label_code = input.label_code;
  starts_on = input.starts_on;
  ends_on = input.ends_on;
  status = draft;
}

-- Under the lock of all creations.
unfoldable pub create_campaign : Lab → CampaignInput → Result Refusal (ℕ × Lab)
create_campaign lab input = do
  let i = next_id (map (λ (c : Campaign). c.campaign_id) lab.campaigns)
  raise_if (any (is_same_draft input) lab.campaigns) duplicate_draft
  campaign_refused lab input
  ok (i, record lab { campaigns = lab.campaigns ++ drafted i input ∷ [] })

abbrev pub known : {A : Type 0} → Option A → Refusal → Result Refusal A
known none e = err e
known (some a) e = ok a

abbrev pub is_draft : ℕ → Campaign → Bool
is_draft i c = c.campaign_id == i && is_status c.status draft

abbrev pub rewritten : ℕ → CampaignInput → Campaign → Campaign
rewritten i input c =
    if is_draft i c
    then record c {
      name = input.name;
      label_code = input.label_code;
      starts_on = input.starts_on;
      ends_on = input.ends_on;
    }
    else c

unfoldable pub update_draft : Lab → Lab → ℕ → CampaignInput → Result Refusal Lab
update_draft seen lab i input = do
  current ← known (get_campaign seen i) campaign_not_found
  raise_if (not (is_status current.status draft)) not_a_draft
  raise_if (not (any (is_draft i) lab.campaigns)) left_draft
  campaign_refused lab input
  ok (record lab { campaigns = map (rewritten i input) lab.campaigns })

-- Of the experiments attached to a campaign, in the order of their ids, the first that cannot start.
unfoldable pub activation_refusal : Lab → ℕ → List Experiment → Result Refusal Unit
activation_refusal lab i [] = ok tt
activation_refusal lab i (e ∷ experiments) =
    let rest = activation_refusal lab i experiments in
    if not (same_option e.campaign_id (some i))
    then rest
    else if control_groups lab e.experiment_id == 0
        && not (treatment_groups lab e.experiment_id == 2)
    then err (no_control_group e.experiment_id)
    else if treatment_groups lab e.experiment_id == 0
    then err (no_treatment_group e.experiment_id)
    else rest

abbrev pub is_current : ℕ → Status → Campaign → Bool
is_current i current c = c.campaign_id == i && is_status c.status current

-- `change_status`: conditional on the status that was read.
abbrev pub moved_on : ℕ → Status → Status → Campaign → Campaign
moved_on i current new c = if is_current i current c then record c { status = new } else c

abbrev pub started : Lab → ℕ → Campaign → Status → Result Refusal Unit
started seen i current active =
    raise_if (ltb current.ends_on seen.today) campaign_ended
    >> activation_refusal seen i (
        sort_by (λ (a : Experiment) (b : Experiment). ltb a.experiment_id b.experiment_id)
          seen.experiments)
started seen i current other = ok tt

unfoldable pub transition : Lab → Lab → ℕ → Action → Result Refusal (Status × Lab)
transition seen lab i action = do
  let target = target_of action
  current ← known (get_campaign seen i) campaign_not_found
  raise_if (not (may_become current.status target)) move_not_allowed
  started seen i current target
  raise_if (not (any (is_current i current.status) lab.campaigns)) status_changed
  ok (target, record lab { campaigns = map (moved_on i current.status target) lab.campaigns })
