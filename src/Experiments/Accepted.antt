-- ===== src/Experiments/Accepted.antt =====
-- A form that was accepted, and the experiment that is created from it.
use retail_segmentation.Prelude.{
  ==_iff, ℕ, zero, suc, ◌≤◌, ◌≡◌, ◌⊎◌, refl, sym, ap, ◌∙◌, Bool, true, false, not, ◌&&◌, ◌||◌,
  Option, none, some, List, [], ◌∷◌, ◌++◌, map, any, length, length-map, replicate, range_from,
  ◌==◌, arith, inl, inr, Result, ok, err, ◌>>=◌, raise_if,
}
use retail_segmentation.Experiments.Lab.{
  treatment, get_campaign, Lab, Origin, Refusal, campaign_over, duplicate_experiment,
  no_such_campaign,
}
use retail_segmentation.Experiments.Setup.{
  is_over, ExperimentInput, check_definitions, create_experiment, ends_early, is_blank,
  is_known_campaign, is_same_experiment, kinds_of, no_definitions, refuse_over_campaign,
}
use retail_segmentation.Experiments.Forms.{
  at_least, only_two, text_or_empty, treatment_groups_max, treatment_key, definition_of,
  ExperimentForm, Field, Key, all_arm_errors, arm_errors, arm_text, definitions_of, error_if,
  keys_for, parse_whole, treatments_of,
}
use retail_segmentation.Experiments.Parsing.{whole_number}
use retail_segmentation.Experiments.Blank.{strip-not_blank}

pub append-empty : {A : Type 0} (xs ys : List A) → xs ++ ys ≡ [] → (xs ≡ []) × (ys ≡ [])
append-empty [] ys h = (refl, h)
append-empty (x ∷ xs) ys h = cc

pub no_error : (b : Bool) (f : Field) → error_if b f ≡ [] → b ≡ false
no_error true f h = cc
no_error false f h = refl

pub neither : (a b : Bool) → (a || b) ≡ false → (a ≡ false) × (b ≡ false)
neither true b h = cc
neither false b h = (refl, h)

-- No definition of an accepted arm is blank.
definitions_not_blank :
    (form : ExperimentForm) (keys : List Key)
    → all_arm_errors form keys ≡ []
    → any (λ (d : List ℕ × List ℕ). is_blank d.0 || is_blank d.1) (definitions_of form keys) ≡ false
definitions_not_blank form [] h = refl
definitions_not_blank form (key ∷ keys) h =
    let (own, rest) = append-empty (arm_errors key _ _) (all_arm_errors form keys) h in
    let (name_ok, text_ok) = append-empty (error_if _ _) (error_if _ _) own in
    let (name, short) =
      neither (is_blank (arm_text form.group_names form.name_fields key)) _
        (no_error _ _ name_ok) in
    let (text, brief) =
      neither (is_blank (arm_text form.group_descriptions form.description_fields key)) _
        (no_error _ _ text_ok) in
    rw (strip-not_blank _ name, strip-not_blank _ text) (definitions_not_blank form keys rest)

length-treatments :
    (i n : ℕ)
    → length (map (λ k. treatment_key k) (range_from i n)) ≡ length (replicate n treatment)
length-treatments i zero = refl
length-treatments i (suc n) = ap suc (length-treatments (suc i) n)

length-keys :
    (has_control : Bool) (n : ℕ) → length (keys_for has_control n) ≡ length (kinds_of has_control n)
length-keys true n = ap suc (length-treatments 1 n)
length-keys false n = length-treatments 1 n

at_least_low : (low : ℕ) (o : Option ℕ) (n : ℕ) → at_least low o ≡ some n → low ≤ n
at_least_low low none n h = cc
at_least_low low (some v) n h = ground arith

only_two_lem : (o : Option ℕ) (n : ℕ) → only_two o ≡ some n → n ≡ 2
only_two_lem none n h = cc
only_two_lem (some v) n h = ground arith

pub parse_whole-low : (raw : List ℕ) (low high n : ℕ) → parse_whole raw low high ≡ some n → low ≤ n
unfolding parse_whole
parse_whole-low raw low high n h = at_least_low low (whole_number raw high) n h

pub treatments_enough :
    (has_control : Bool) (raw : Option (List ℕ)) (n : ℕ)
    → treatments_of has_control raw ≡ some n
    → (1 ≤ n) × ((not has_control && not (n == 2)) ≡ false)
unfolding treatments_of
treatments_enough true raw n h =
    (parse_whole-low (text_or_empty raw) 1 treatment_groups_max n h, refl)
treatments_enough false raw n h =
    let two = only_two_lem (parse_whole (text_or_empty raw) 2 treatment_groups_max) n h in
    (omega (arith, two), ground (arith, two))

pub some_keys :
    (has_control : Bool) (n : ℕ) (form : ExperimentForm)
    → 1 ≤ n
    → no_definitions (definitions_of form (keys_for has_control n)) ≡ false
some_keys true n form h = refl
some_keys false zero form h = absurd (omega arith)
some_keys false (suc n) form h = refl

-- The definitions of an accepted form pass the checks of the table.
pub accepted_definitions :
    (form : ExperimentForm) (has_control : Bool) (n : ℕ)
    → (1 ≤ n) × ((not has_control && not (n == 2)) ≡ false)
    → all_arm_errors form (keys_for has_control n) ≡ []
    → check_definitions has_control n (definitions_of form (keys_for has_control n)) ≡ ok tt
unfolding check_definitions
accepted_definitions form has_control n (low, two) h =
    let keys = keys_for has_control n in
    let same : (length (definitions_of form keys) == length (kinds_of has_control n)) ≡ true =
      (==_iff (length (definitions_of form keys)) (length (kinds_of has_control n))).1
        (length-map (definition_of form) keys ∙ length-keys has_control n) in
    let some_treatment : (n == 0) ≡ false = ground (arith, low) in
    rw (two, some_treatment, same, definitions_not_blank form keys h) refl

-- Which refusals are left of a complete and consistent input.
abbrev pub IsCreationRefusal : Refusal → Type 0
IsCreationRefusal e = (e ≡ campaign_over) ⊎ ((e ≡ duplicate_experiment) ⊎ (e ≡ no_such_campaign))

err_injective : {A : Type 0} {a b : Refusal} → ◌≡◌ {A = Result Refusal A} (err a) (err b) → a ≡ b
err_injective h = cc

not_err : {A : Type 0} {a : A} {e : Refusal} → ◌≡◌ {A = Result Refusal A} (ok a) (err e) → ⊥
not_err h = cc

refused_if :
    {B : Type 0} (t : Bool) (r : Refusal) (f : Unit → Result Refusal B) (e : Refusal)
    → (raise_if t r >>= f) ≡ err e
    → (e ≡ r) ⊎ (f tt ≡ err e)
refused_if true r f e h = inl (sym (err_injective h))
refused_if false r f e h = inr h

refused_campaign :
    {B : Type 0} (lab : Lab) (o : Option ℕ) (r : Refusal) (f : Unit → Result Refusal B)
    (e : Refusal)
    → (refuse_over_campaign lab o r >>= f) ≡ err e
    → (e ≡ r) ⊎ (f tt ≡ err e)
refused_campaign lab none r f e h = inr h
refused_campaign lab (some i) r f e h = refused_if (is_over (get_campaign lab i)) r f e h

pub complete_refusals :
    (lab : Lab) (input : ExperimentInput) (origin : Origin) (n : ℕ) (e : Refusal)
    → input.data_origin ≡ some origin
    → input.treatment_groups ≡ some n
    → no_definitions input.group_definitions ≡ false
    → check_definitions input.has_control n input.group_definitions ≡ ok tt
    → (ends_early input.starts_on input.ends_on || input.conversion_window_days == 0) ≡ false
    → create_experiment lab input ≡ err e
    → IsCreationRefusal e
unfolding create_experiment
complete_refusals lab input origin n e given counted defined checked dated h =
    let h1 = rw (given, counted, defined) at h in
    elim (refused_campaign lab input.campaign_id campaign_over _ e h1) [
      | inl r ↦ inl r
      | inr h2 ↦
          elim (refused_if (any (is_same_experiment input) lab.experiments) duplicate_experiment _ e
            (rw checked at h2)) [
              | inl r ↦ inr (inl r)
              | inr h3 ↦
                  elim (refused_if (not (is_known_campaign lab input.campaign_id)) no_such_campaign
                    _ e (rw dated at h3)) [ inl r ↦ inr (inr r) | inr done ↦ absurd (not_err done) ]
            ]
    ]
