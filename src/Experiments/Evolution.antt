-- ===== src/Experiments/Evolution.antt =====
-- How the rows of the table of campaigns change: `TRANSITIONS` of web/services/campaigns.py, and the edits of drafts.
use retail_segmentation.Prelude.{
  ℕ, ◌≡◌, refl, sym, ap, ◌∙◌, Bool, true, false, ◌&&◌, List, [], ◌∷◌, ◌++◌, map, ◌==◌, Bool-cases,
  inl, inr, ◌⊎◌,
}
use retail_segmentation.Experiments.Lab.{
  Campaign, Lab, Status, draft, active, finished, cancelled, is_status,
}
use retail_segmentation.Experiments.Campaigns.{
  CampaignInput, drafted, is_draft, is_current, may_become, moved_on, rewritten,
}
use retail_segmentation.Experiments.Shapes.{
  assign_ok, create_campaign_ok, create_experiment_ok, record_exposure_ok,
  record_group_exposures_ok, transition_ok, update_draft_ok, update_experiment_ok,
}
use retail_segmentation.Experiments.Writes.{
  expose_all_frame, insert_assignments_ok, insert_exposure_frame,
}
use retail_segmentation.Experiments.Assignment.{rows_of}
use retail_segmentation.Experiments.Exposure.{list_assignment_ids}
use retail_segmentation.Experiments.Steps.{
  Step, created, redrafted, moved, set_up, changed, dealt, exposed, group_exposed, passed, Reach,
  here, next,
}

-- A path along the transitions of the table.
pub data Life : Status → Status → Type 0 where
  stay : {s : Status} → Life s s
  go : {s t u : Status} → may_become s t ≡ true → Life t u → Life s u

Life-trans : {s t u : Status} → Life s t → Life t u → Life s u
Life-trans stay k = k
Life-trans (go m l) k = go m (Life-trans l k)

not-back_to_draft : (s : Status) → may_become s draft ≡ true → (A : Type 0) → A
unfolding may_become
not-back_to_draft draft h A = cc
not-back_to_draft active h A = cc
not-back_to_draft finished h A = cc
not-back_to_draft cancelled h A = cc

Life-draft : {s t : Status} → Life s t → t ≡ draft → s ≡ draft
Life-draft stay e = e
Life-draft (go {s} {t} m l) e =
    let t_draft = Life-draft l e in
    not-back_to_draft s (ap (λ x. may_become s x) (sym t_draft) ∙ m) _

-- A later row of the same campaign.
abbrev pub Follows : Campaign → Campaign → Type 0
Follows c d =
    (d.campaign_id ≡ c.campaign_id)
    × Life c.status d.status
    × ((c.status ≡ draft) ⊎ (d ≡ record c { status = d.status }))

-- The rows keep their places, and later ones stand behind them.
abbrev pub Evolves : List Campaign → List Campaign → Type 0
Evolves [] ds = Unit
Evolves (c ∷ cs) [] = ⊥
Evolves (c ∷ cs) (d ∷ ds) = Follows c d × Evolves cs ds

Follows-refl : (c : Campaign) → Follows c c
Follows-refl c = (refl, stay, inr refl)

Follows-trans : (c d e : Campaign) → Follows c d → Follows d e → Follows c e
Follows-trans c d e (i, l, inl was) (j, k, h) = (j ∙ i, Life-trans l k, inl was)
Follows-trans c d e (i, l, inr same) (j, k, inl was) =
    (j ∙ i, Life-trans l k, inl (Life-draft l was))
Follows-trans c d e (i, l, inr same) (j, k, inr same_again) = (
  j ∙ i,
  Life-trans l k,
  inr (same_again ∙ ap (λ (x : Campaign). record x { status = e.status }) same),
)

Evolves-refl : (cs : List Campaign) → Evolves cs cs
Evolves-refl [] = tt
Evolves-refl (c ∷ cs) = (Follows-refl c, Evolves-refl cs)

Evolves-trans : (cs ds es : List Campaign) → Evolves cs ds → Evolves ds es → Evolves cs es
Evolves-trans [] ds es h k = tt
Evolves-trans (c ∷ cs) (d ∷ ds) (e ∷ es) (f, h) (g, k) =
    (Follows-trans c d e f g, Evolves-trans cs ds es h k)
Evolves-trans (c ∷ cs) [] es h k = absurd h
Evolves-trans (c ∷ cs) (d ∷ ds) [] h k = absurd k

Evolves-append : (cs ds : List Campaign) → Evolves cs (cs ++ ds)
Evolves-append [] ds = tt
Evolves-append (c ∷ cs) ds = (Follows-refl c, Evolves-append cs ds)

Evolves-map :
    (f : Campaign → Campaign)
    → ((c : Campaign) → Follows c (f c))
    → (cs : List Campaign) → Evolves cs (map f cs)
Evolves-map f h [] = tt
Evolves-map f h (c ∷ cs) = (h c, Evolves-map f h cs)

is_status-eq : (s t : Status) → is_status s t ≡ true → s ≡ t
is_status-eq draft draft h = refl
is_status-eq active active h = refl
is_status-eq finished finished h = refl
is_status-eq cancelled cancelled h = refl
is_status-eq draft active h = cc
is_status-eq draft finished h = cc
is_status-eq draft cancelled h = cc
is_status-eq active draft h = cc
is_status-eq active finished h = cc
is_status-eq active cancelled h = cc
is_status-eq finished draft h = cc
is_status-eq finished active h = cc
is_status-eq finished cancelled h = cc
is_status-eq cancelled draft h = cc
is_status-eq cancelled active h = cc
is_status-eq cancelled finished h = cc

second_of : (a b : Bool) → (a && b) ≡ true → b ≡ true
second_of true b h = h
second_of false b h = cc

rewritten-Follows : (i : ℕ) (input : CampaignInput) (c : Campaign) → Follows c (rewritten i input c)
rewritten-Follows i input c = elim (Bool-cases (is_draft i c)) [
  | inl yes_draft ↦
      rw yes_draft
        (refl, stay, inl (is_status-eq c.status draft (second_of (c.campaign_id == i) _ yes_draft)))
  | inr other ↦ rw other (Follows-refl c)
]

moved_on-Follows :
    (i : ℕ) (current new : Status)
    → may_become current new ≡ true
    → (c : Campaign) → Follows c (moved_on i current new c)
moved_on-Follows i current new m c = elim (Bool-cases (is_current i current c)) [
  | inl it_is ↦
      let e = is_status-eq c.status current (second_of (c.campaign_id == i) _ it_is) in
      rw it_is (refl, go (ap (λ s. may_become s new) e ∙ m) stay, inr refl)
  | inr other ↦ rw other (Follows-refl c)
]

same-Evolves :
    (lab after : Lab) → after.campaigns ≡ lab.campaigns → Evolves lab.campaigns after.campaigns
same-Evolves lab after e = rw e (Evolves-refl lab.campaigns)

Step-Evolves :
    (shuffle : ℕ → List ℕ → List ℕ) {lab after : Lab}
    → Step shuffle lab after
    → Evolves lab.campaigns after.campaigns
Step-Evolves shuffle {lab} {after} (created input i h) =
    rw (create_campaign_ok lab input i after h)
      (Evolves-append lab.campaigns (drafted i input ∷ []))
Step-Evolves shuffle {lab} {after} (redrafted seen i input h) =
    rw (update_draft_ok seen lab i input after h)
      (Evolves-map (rewritten i input) (rewritten-Follows i input) lab.campaigns)
Step-Evolves shuffle {lab} {after} (moved seen i action s h) =
    let (current, m, e) = transition_ok seen lab i action s after h in
    rw e (Evolves-map (moved_on i current s) (moved_on-Follows i current s m) lab.campaigns)
Step-Evolves shuffle {lab} {after} (set_up input i h) =
    let (origin, n, e) = create_experiment_ok lab input i after h in
    same-Evolves lab after (ap (λ (l : Lab). l.campaigns) e)
Step-Evolves shuffle {lab} {after} (changed i input h) =
    let (current, found, kept, e) = update_experiment_ok lab i input after h in
    same-Evolves lab after (ap (λ (l : Lab). l.campaigns) e)
Step-Evolves shuffle {lab} {after} (dealt i plan h) =
    let (new, all, e) =
      insert_assignments_ok i (rows_of plan.arms) lab after
        (assign_ok shuffle lab i plan after h).1 in
    same-Evolves lab after (ap (λ (l : Lab). l.campaigns) e)
Step-Evolves shuffle {lab} {after} (exposed i customer today written h) =
    let (found, there, treated, e) = record_exposure_ok lab i customer today written after h in
    same-Evolves lab after (ap (λ (l : Lab). l.campaigns) (e ∙ insert_exposure_frame lab found.0))
Step-Evolves shuffle {lab} {after} (group_exposed i group raw today n h) =
    let (customers, e) = record_group_exposures_ok lab i group raw today n after h in
    same-Evolves lab after (
      ap (λ (l : Lab). l.campaigns)
        (e ∙ expose_all_frame lab (list_assignment_ids lab i group customers) 0))
Step-Evolves shuffle {lab} {after} (passed now today labels open_labels e) =
    same-Evolves lab after (ap (λ (l : Lab). l.campaigns) e)

-- Over any order of operations, also where a service writes after a read that is out of date, every campaign
-- keeps its row and its id, its status moves only along the table of transitions, and one that is not a draft
-- changes nothing but its status.
pub campaigns_evolve :
    (shuffle : ℕ → List ℕ → List ℕ) {lab after : Lab}
    → Reach shuffle lab after
    → Evolves lab.campaigns after.campaigns
campaigns_evolve shuffle {lab} here = Evolves-refl lab.campaigns
campaigns_evolve shuffle {lab} (next {mid} {after} r s) =
    Evolves-trans lab.campaigns mid.campaigns after.campaigns (campaigns_evolve shuffle r)
      (Step-Evolves shuffle s)
