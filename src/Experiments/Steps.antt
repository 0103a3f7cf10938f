-- ===== src/Experiments/Steps.antt =====
-- The life of the tables: any order of the services' operations, each of them one unit of work that returned. A campaign
-- is edited and moved after a read (`seen`) that may be out of date by the time of the write.
use retail_segmentation.Prelude.{ℕ, ◌≡◌, Bool, Option, List, ok}
use retail_segmentation.Experiments.Lab.{Lab, Status}
use retail_segmentation.Experiments.Campaigns.{
  Action, CampaignInput, create_campaign, update_draft, transition,
}
use retail_segmentation.Experiments.Setup.{ExperimentInput, create_experiment, update_experiment}
use retail_segmentation.Experiments.Assignment.{AssignmentPlan, assign}
use retail_segmentation.Experiments.Exposure.{record_exposure, record_group_exposures}

-- `passed` is what others write: the clock, the day, the labels and the customers' history.
pub data Step (shuffle : ℕ → List ℕ → List ℕ) : Lab → Lab → Type 0 where
  created :
      {lab after : Lab} (input : CampaignInput) (i : ℕ)
      → create_campaign lab input ≡ ok (i, after)
      → Step shuffle lab after
  redrafted :
      {lab after : Lab} (seen : Lab) (i : ℕ) (input : CampaignInput)
      → update_draft seen lab i input ≡ ok after
      → Step shuffle lab after
  moved :
      {lab after : Lab} (seen : Lab) (i : ℕ) (action : Action) (s : Status)
      → transition seen lab i action ≡ ok (s, after)
      → Step shuffle lab after
  set_up :
      {lab after : Lab} (input : ExperimentInput) (i : ℕ)
      → create_experiment lab input ≡ ok (i, after)
      → Step shuffle lab after
  changed :
      {lab after : Lab} (i : ℕ) (input : ExperimentInput)
      → update_experiment lab i input ≡ ok after
      → Step shuffle lab after
  dealt :
      {lab after : Lab} (i : ℕ) (plan : AssignmentPlan)
      → assign shuffle lab i ≡ ok (plan, after)
      → Step shuffle lab after
  exposed :
      {lab after : Lab} (i customer : ℕ) (today : Option ℕ) (written : Bool)
      → record_exposure lab i customer today ≡ ok (written, after)
      → Step shuffle lab after
  group_exposed :
      {lab after : Lab} (i group : ℕ) (raw : Option (List (Option ℕ))) (today : Option ℕ) (n : ℕ)
      → record_group_exposures lab i group raw today ≡ ok (n, after)
      → Step shuffle lab after
  passed :
      {lab after : Lab} (now today : ℕ) (labels : List ℕ) (open_labels : List (ℕ × Option ℕ))
      → after ≡ record lab { now = now; today = today; labels = labels; open_labels = open_labels }
      → Step shuffle lab after

pub data Reach (shuffle : ℕ → List ℕ → List ℕ) (lab : Lab) : Lab → Type 0 where
  here : Reach shuffle lab lab
  next :
      {mid after : Lab} → Reach shuffle lab mid → Step shuffle mid after → Reach shuffle lab after
