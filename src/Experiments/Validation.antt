-- ===== src/Experiments/Validation.antt =====
-- `validate_campaign` of web/services/campaigns.py and `validate_experiment` of web/services/experiments.py. A refused form
-- is the list of its fields with an error. The number that stands for a text is a parameter.
use retail_segmentation.Prelude.{
  ℕ, Bool, true, not, ◌&&◌, ◌||◌, Option, none, some, List, [], ◌∷◌, ◌++◌, length, ltb,
  if◌then◌else◌, Result, ok, err,
}
use retail_segmentation.Segmentation.Window.{strip}
use retail_segmentation.Experiments.Campaigns.{CampaignInput}
use retail_segmentation.Experiments.Setup.{ExperimentInput, is_blank}
use retail_segmentation.Experiments.Parsing.{int_max, iso_date}
use retail_segmentation.Experiments.Forms.{
  ExperimentForm, Field, arms_errors, campaign_field, control_field, control_word, definitions_of,
  ends_field, error_if, is_creating, is_date, is_empty, is_given, is_no_control, is_reversed,
  keys_for, label_field, label_max, metric_field, metric_of, name_field, name_max, origin_field,
  origin_of, parse_whole, same_text, selected_control, starts_field, treatments_of, window_field,
  window_max_days,
}

module _ (encode : List ℕ → ℕ) where
  abbrev pub name_errors : List ℕ → List Field
  name_errors name = error_if (is_blank name || ltb name_max (length (strip name))) name_field

  abbrev pub campaign_of : List ℕ → Option ℕ
  campaign_of [] = none
  campaign_of (c ∷ text) = parse_whole (c ∷ text) 1 int_max

  abbrev pub end_errors : List ℕ → Option ℕ → List Field
  end_errors [] start = []
  end_errors (c ∷ text) start =
      error_if (not (is_date (iso_date (c ∷ text))) || is_reversed start (iso_date (c ∷ text)))
        ends_field

  abbrev pub has_control_of : ExperimentForm → Bool
  has_control_of form = not (is_no_control (selected_control form))

  -- The errors that only a new experiment can have.
  abbrev pub creation_errors : ExperimentForm → List Field
  creation_errors form =
      error_if
        (not (same_text (selected_control form) control_word)
          && not (is_no_control (selected_control form)))
        control_field
      ++ error_if (not (is_given (origin_of form.data_origin))) origin_field
      ++ arms_errors form (has_control_of form)
          (treatments_of (has_control_of form) form.treatment_groups)

  abbrev pub frame_errors : ExperimentForm → List Field
  frame_errors form =
      name_errors form.name
      ++ error_if (not (is_empty form.campaign_id) && not (is_given (campaign_of form.campaign_id)))
          campaign_field
      ++ error_if (not (is_given (metric_of form.target_metric))) metric_field
      ++ error_if (not (is_date (iso_date form.starts_on))) starts_field
      ++ end_errors form.ends_on (iso_date form.starts_on)
      ++ error_if (not (is_given (parse_whole form.conversion_window_days 1 window_max_days)))
          window_field

  abbrev pub or_none : Option ℕ → ℕ
  or_none none = 0
  or_none (some n) = n

  -- What does not depend on whether the experiment is new.
  abbrev pub framed : ExperimentForm → ExperimentInput
  framed form = record {
    name = encode (strip form.name);
    campaign_id = campaign_of form.campaign_id;
    target_metric = or_none (metric_of form.target_metric);
    starts_on = or_none (iso_date form.starts_on);
    ends_on = iso_date form.ends_on;
    conversion_window_days = or_none (parse_whole form.conversion_window_days 1 window_max_days);
    data_origin = none;
    treatment_groups = none;
    has_control = true;
    group_definitions = [];
  }

  abbrev pub with_arms : ExperimentForm → Option ℕ → ExperimentInput
  with_arms form none = framed form
  with_arms form (some n) = record (framed form) {
    data_origin = origin_of form.data_origin;
    treatment_groups = some n;
    has_control = has_control_of form;
    group_definitions = definitions_of form (keys_for (has_control_of form) n);
  }

  -- The input when no field has an error.
  abbrev pub unless_errors : {A : Type 0} → List Field → A → Result (List Field) A
  unless_errors [] input = ok input
  unless_errors (field ∷ fields) input = err (field ∷ fields)

  unfoldable pub validate_experiment : ExperimentForm → Result (List Field) ExperimentInput
  unfolding parse_whole metric_of origin_of treatments_of selected_control strip iso_date
  validate_experiment form =
      if is_creating form
      then unless_errors (frame_errors form ++ creation_errors form)
          (with_arms form (treatments_of (has_control_of form) form.treatment_groups))
      else unless_errors (frame_errors form) (framed form)

  -- `validate_campaign`: the length is that of the name as sent.
  unfoldable pub validate_campaign :
      List ℕ → List ℕ → List ℕ → List ℕ → Result (List Field) CampaignInput
  unfolding strip iso_date
  validate_campaign name label starts_on ends_on =
      unless_errors
        (error_if (is_blank name || ltb name_max (length name)) name_field
          ++ error_if (is_empty label || ltb label_max (length label)) label_field
          ++ error_if (not (is_date (iso_date starts_on))) starts_field
          ++ error_if
              (not (is_date (iso_date ends_on))
                || is_reversed (iso_date starts_on) (iso_date ends_on))
              ends_field)
        (record {
          name = encode (strip name);
          label_code = encode label;
          starts_on = or_none (iso_date starts_on);
          ends_on = or_none (iso_date ends_on);
        })
