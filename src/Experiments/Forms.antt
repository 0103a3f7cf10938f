-- ===== src/Experiments/Forms.antt =====
-- The forms of a campaign and of an experiment: `validate_campaign` of web/services/campaigns.py and `validate_experiment`
-- of web/services/experiments.py: the fields, the texts and the arms.
use retail_segmentation.Prelude.{
  ℕ, ◌-◌, Bool, true, false, ◌&&◌, ◌||◌, Option, none, some, List, [], ◌∷◌, ◌++◌, map, any, length,
  range_from, ltb, leb, ◌==◌, if◌then◌else◌, String, str_eq,
}
use retail_segmentation.Segmentation.Window.{strip}
use retail_segmentation.Experiments.Lab.{Origin, observed, seeded, injected}
use retail_segmentation.Experiments.Setup.{is_blank}
use retail_segmentation.Experiments.Parsing.{whole_number}

pub data Key : Type 0 where
  control_key : Key
  treatment_key : (index : ℕ) → Key

pub data Field : Type 0 where
  name_field label_field starts_field ends_field campaign_field metric_field window_field : Field
  control_field origin_field treatments_field : Field
  arm_name_field arm_description_field : (key : Key) → Field

abbrev pub name_max : ℕ
name_max = 120

abbrev pub label_max : ℕ
label_max = 40

abbrev pub window_max_days : ℕ
window_max_days = 32767

abbrev pub treatment_groups_max : ℕ
treatment_groups_max = 10

abbrev pub description_max : ℕ
description_max = 500

-- `{field: message}` where the test fails the field.
abbrev pub error_if : Bool → Field → List Field
error_if true field = field ∷ []
error_if false field = []

-- A required date: an empty text and one that is no date are both errors.
abbrev pub is_date : Option ℕ → Bool
is_date none = false
is_date (some d) = true

abbrev pub is_reversed : Option ℕ → Option ℕ → Bool
is_reversed (some start) (some end) = ltb end start
is_reversed _ _ = false

abbrev pub is_empty : List ℕ → Bool
is_empty [] = true
is_empty (c ∷ text) = false

abbrev pub at_least : ℕ → Option ℕ → Option ℕ
at_least low none = none
at_least low (some value) = if leb low value then some value else none

-- `_parse_whole`
unfoldable pub parse_whole : List ℕ → ℕ → ℕ → Option ℕ
parse_whole raw low high = at_least low (whole_number raw high)

-- `str.upper` in ASCII
abbrev pub upper : List ℕ → List ℕ
upper text = map (λ c. if leb b'a' c && leb c b'z' then c - 32 else c) text

abbrev pub same_text : List ℕ → List ℕ → Bool
same_text [] [] = true
same_text (a ∷ xs) (b ∷ ys) = let rest = same_text xs ys in if a == b then rest else false
same_text _ _ = false

abbrev pub control_word : List ℕ
control_word = b'C' ∷ b'O' ∷ b'N' ∷ b'T' ∷ b'R' ∷ b'O' ∷ b'L' ∷ []

-- `_NO_CONTROL_VALUES`
abbrev pub no_control_values : List (List ℕ)
no_control_values =
    (b'N' ∷ b'O' ∷ b'N' ∷ b'E' ∷ [])
    ∷ (b'N' ∷ b'O' ∷ [])
    ∷ (b'N' ∷ b'O' ∷ b'_' ∷ b'C' ∷ b'O' ∷ b'N' ∷ b'T' ∷ b'R' ∷ b'O' ∷ b'L' ∷ [])
    ∷ (b'N' ∷ b'O' ∷ b'-' ∷ b'C' ∷ b'O' ∷ b'N' ∷ b'T' ∷ b'R' ∷ b'O' ∷ b'L' ∷ [])
    ∷ (b'F' ∷ b'A' ∷ b'L' ∷ b'S' ∷ b'E' ∷ [])
    ∷ (b'0' ∷ [])
    ∷ []

-- The setup form. `group_names` and `group_descriptions` are empty where they are not given; then the arms' texts are
-- those of the fields `control_name`, `treatment_1_name`, ..., the two dicts at the end.
pub record ExperimentForm : Type 0 where
  pub name : List ℕ
  pub campaign_id : List ℕ
  pub target_metric : String
  pub starts_on : List ℕ
  pub ends_on : List ℕ
  pub conversion_window_days : List ℕ
  pub data_origin : Option String
  pub treatment_groups : Option (List ℕ)
  pub control_group : Option (List ℕ)
  pub control_mode : Option (List ℕ)
  pub group_names : List (Key × List ℕ)
  pub group_descriptions : List (Key × List ℕ)
  pub name_fields : List (Key × List ℕ)
  pub description_fields : List (Key × List ℕ)

abbrev pub first_given : Option (List ℕ) → Option (List ℕ) → List ℕ
first_given none none = control_word
first_given none (some []) = control_word
first_given none (some (c ∷ text)) = c ∷ text
first_given (some []) other = control_word
first_given (some (c ∷ text)) other = c ∷ text

unfoldable pub selected_control : ExperimentForm → List ℕ
unfolding strip
selected_control form = upper (strip (first_given form.control_group form.control_mode))

abbrev pub is_no_control : List ℕ → Bool
is_no_control text = any (λ word. same_text word text) no_control_values

abbrev pub same_key : Key → Key → Bool
same_key control_key control_key = true
same_key (treatment_key i) (treatment_key j) = i == j
same_key _ _ = false

-- `texts.get(key, "")`
abbrev pub text_at : Key → List (Key × List ℕ) → List ℕ
text_at key [] = []
text_at key ((k, text) ∷ texts) =
    let rest = text_at key texts in if same_key k key then text else rest

abbrev pub arm_text : List (Key × List ℕ) → List (Key × List ℕ) → Key → List ℕ
arm_text [] fields key = text_at key fields
arm_text (t ∷ texts) fields key = text_at key (t ∷ texts)

-- `DATA_ORIGINS`
unfoldable pub origin_of : Option String → Option Origin
origin_of none = none
origin_of (some text) =
    if str_eq text "OBSERVED"
    then some observed
    else if str_eq text "SEEDED"
    then some seeded
    else if str_eq text "INJECTED"
    then some injected
    else none

-- `TARGET_METRICS`, of one metric.
unfoldable pub metric_of : String → Option ℕ
metric_of text = if str_eq text "CONVERSION" then some 1 else none

abbrev pub keys_for : Bool → ℕ → List Key
keys_for has_control n =
    let treatments = map (λ i. treatment_key i) (range_from 1 n) in
    if has_control then control_key ∷ treatments else treatments

-- The errors of one arm.
abbrev pub arm_errors : Key → List ℕ → List ℕ → List Field
arm_errors key name description =
    error_if (is_blank name || ltb name_max (length (strip name))) (arm_name_field key)
    ++ error_if (is_blank description || ltb description_max (length (strip description)))
        (arm_description_field key)

abbrev pub all_arm_errors : ExperimentForm → List Key → List Field
all_arm_errors form [] = []
all_arm_errors form (key ∷ keys) =
    arm_errors key (arm_text form.group_names form.name_fields key)
      (arm_text form.group_descriptions form.description_fields key)
    ++ all_arm_errors form keys

abbrev pub definition_of : ExperimentForm → Key → List ℕ × List ℕ
definition_of form key = (
  strip (arm_text form.group_names form.name_fields key),
  strip (arm_text form.group_descriptions form.description_fields key),
)

abbrev pub definitions_of : ExperimentForm → List Key → List (List ℕ × List ℕ)
definitions_of form keys = map (definition_of form) keys

abbrev pub text_or_empty : Option (List ℕ) → List ℕ
text_or_empty none = []
text_or_empty (some text) = text

abbrev pub only_two : Option ℕ → Option ℕ
only_two none = none
only_two (some n) = if n == 2 then some n else none

-- The number of treatments: exactly two without a control.
unfoldable pub treatments_of : Bool → Option (List ℕ) → Option ℕ
unfolding parse_whole
treatments_of true raw = parse_whole (text_or_empty raw) 1 treatment_groups_max
treatments_of false raw = only_two (parse_whole (text_or_empty raw) 2 treatment_groups_max)

abbrev pub is_given : {A : Type 0} → Option A → Bool
is_given none = false
is_given (some a) = true

abbrev pub is_creating : ExperimentForm → Bool
is_creating form = is_given form.data_origin || is_given form.treatment_groups

abbrev pub arms_errors : ExperimentForm → Bool → Option ℕ → List Field
arms_errors form has_control none = treatments_field ∷ []
arms_errors form has_control (some n) = all_arm_errors form (keys_for has_control n)
