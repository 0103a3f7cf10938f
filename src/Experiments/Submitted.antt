-- ===== src/Experiments/Submitted.antt =====
-- From the setup form to the table: `validate_experiment` and `create_experiment` of web/services/experiments.py.
use mathlib.Core.Path.{subst}
use retail_segmentation.Prelude.{
  ℕ, ◌≤◌, ◌≡◌, refl, sym, ap, ◌∙◌, Bool, true, false, not, ◌||◌, Option, none, some, List, [], ◌∷◌,
  ◌++◌, ◌==◌, arith, ok, err, ok_injective,
}
use retail_segmentation.Experiments.Lab.{Lab, Refusal}
use retail_segmentation.Experiments.Setup.{ExperimentInput, create_experiment, ends_early}
use retail_segmentation.Experiments.Parsing.{iso_date}
use retail_segmentation.Experiments.Forms.{
  ExperimentForm, Field, all_arm_errors, arms_errors, error_if, is_creating, is_date, is_given,
  is_reversed, keys_for, origin_of, parse_whole, treatments_of, window_max_days,
}
use retail_segmentation.Experiments.Validation.{
  creation_errors, end_errors, frame_errors, framed, has_control_of, or_none, unless_errors,
  validate_experiment, with_arms,
}
use retail_segmentation.Experiments.Accepted.{
  IsCreationRefusal, accepted_definitions, append-empty, complete_refusals, neither, no_error,
  parse_whole-low, some_keys, treatments_enough,
}

no_errors :
    {A : Type 0} (encode : List ℕ → ℕ) (fields : List Field) (v input : A)
    → unless_errors encode fields v ≡ ok input
    → (fields ≡ []) × (v ≡ input)
no_errors encode [] v input h = (refl, ok_injective h)
no_errors encode (f ∷ fields) v input h = cc

given : {A : Type 0} (o : Option A) → not (is_given o) ≡ false → (a : A) × (o ≡ some a)
given none h = cc
given (some a) h = (a, refl)

given_date : (o : Option ℕ) → not (is_date o) ≡ false → (d : ℕ) × (o ≡ some d)
given_date none h = cc
given_date (some d) h = (d, refl)

some_arms :
    (form : ExperimentForm) (has_control : Bool) (o : Option ℕ)
    → arms_errors form has_control o ≡ []
    → (n : ℕ) × (o ≡ some n) × (all_arm_errors form (keys_for has_control n) ≡ [])
some_arms form has_control none h = cc
some_arms form has_control (some n) h = (n, refl, h)

in_order :
    (encode : List ℕ → ℕ) (ends_on : List ℕ) (start : Option ℕ) (s : ℕ)
    → start ≡ some s
    → end_errors encode ends_on start ≡ []
    → ends_early s (iso_date ends_on) ≡ false
unfolding iso_date
in_order encode [] start s e h = refl
in_order encode (c ∷ text) start s e h =
    let (read, reversed) = neither (not (is_date (iso_date (c ∷ text)))) _ (no_error _ _ h) in
    let (end, is_end) = given_date (iso_date (c ∷ text)) read in
    let late : is_reversed (some s) (some end) ≡ false =
      ap (λ x. is_reversed x (some end)) (sym e) ∙ ap (is_reversed start) (sym is_end) ∙ reversed in
    ap (ends_early s) is_end ∙ late

positive_test : (w : ℕ) → 1 ≤ w → (w == 0) ≡ false
positive_test w h = ground (arith, h)

consistent :
    (encode : List ℕ → ℕ) (start window ends : Option ℕ) (s w : ℕ)
    → start ≡ some s
    → window ≡ some w
    → 1 ≤ w
    → ends_early s ends ≡ false
    → (ends_early (or_none encode start) ends || or_none encode window == 0) ≡ false
consistent encode start window ends s w is_start is_window low h =
    rw (is_start, is_window, h, positive_test w low) refl

module _ (encode : List ℕ → ℕ) (form : ExperimentForm)
    (accepted : frame_errors encode form ++ creation_errors encode form ≡ []) where
  parts : (frame_errors encode form ≡ []) × (creation_errors encode form ≡ [])
  parts = append-empty (frame_errors encode form) (creation_errors encode form) accepted

  dated :
      (ends_early (framed encode form).starts_on (framed encode form).ends_on
        || (framed encode form).conversion_window_days == 0)
      ≡ false
  dated =
      let (h5, window) = append-empty _ (error_if _ _) parts.0 in
      let (h4, ends) =
        append-empty _ (end_errors encode form.ends_on (iso_date form.starts_on)) h5 in
      let (h3, starts) = append-empty _ (error_if _ _) h4 in
      let (s, start) = given_date (iso_date form.starts_on) (no_error _ _ starts) in
      let (w, days) =
        given (parse_whole form.conversion_window_days 1 window_max_days) (no_error _ _ window) in
      let positive = parse_whole-low form.conversion_window_days 1 window_max_days w days in
      let ordered = in_order encode form.ends_on (iso_date form.starts_on) s start ends in
      consistent encode (iso_date form.starts_on)
        (parse_whole form.conversion_window_days 1 window_max_days) (iso_date form.ends_on) s w
        start days positive ordered

  refusals_of :
      (lab : Lab) (e : Refusal)
      → create_experiment lab
          (with_arms encode form (treatments_of (has_control_of encode form) form.treatment_groups))
        ≡ err e
      → IsCreationRefusal e
  refusals_of lab e h =
      let (h2, arms) = append-empty _ (arms_errors form _ _) parts.1 in
      let (h1, origins) = append-empty _ (error_if _ _) h2 in
      let (origin, known_origin) = given (origin_of form.data_origin) (no_error _ _ origins) in
      let (n, counted, no_arm_errors) =
        some_arms form (has_control_of encode form)
          (treatments_of (has_control_of encode form) form.treatment_groups) arms in
      let enough = treatments_enough (has_control_of encode form) form.treatment_groups n counted in
      complete_refusals lab (with_arms encode form (some n)) origin n e known_origin refl
        (some_keys (has_control_of encode form) n form enough.0)
        (accepted_definitions form (has_control_of encode form) n enough no_arm_errors) dated
        (subst (λ o. create_experiment lab (with_arms encode form o) ≡ err e) counted h)

-- When the form of a new experiment has been accepted, its creation can be refused for three reasons only:
-- its campaign is over, its campaign does not exist, or there is an experiment of the same name, campaign and
-- start.
pub validate_experiment-IsCreationRefusal :
    (encode : List ℕ → ℕ) (form : ExperimentForm) (input : ExperimentInput) (lab : Lab)
    (e : Refusal)
    → is_creating form ≡ true
    → validate_experiment encode form ≡ ok input
    → create_experiment lab input ≡ err e
    → IsCreationRefusal e
unfolding validate_experiment
validate_experiment-IsCreationRefusal encode form input lab e creating valid refused =
    let (clean, same) = no_errors encode _ _ input (rw creating at valid) in
    refusals_of encode form clean lab e
      (subst (λ v. create_experiment lab v ≡ err e) (sym same) refused)
