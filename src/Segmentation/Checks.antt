-- ===== src/Segmentation/Checks.antt =====
-- `Assignment.validate` and `_validated` of web/services/segmentation.py: what is checked of every
-- assignment before any row is written.
use retail_segmentation.Prelude.{
  Option-cases, ◌⊎◌, inl, inr, ℕ, ◌≡◌, refl, Bool, true, false, ◌&&◌, ◌||◌, not, none, List, [],
  ◌∷◌, arith, Result, ok, err, ◌>>=◌, ◌>>◌, ◌==◌, if◌then◌else◌, raise_if, any, All, map,
}
use retail_segmentation.Segmentation.Domain.{
  Error, measured_unlabelled, labelled_unmeasured, appears_twice, Assignment, MethodOutput, is_some,
}

-- `any(value is not None for value in measured)`
abbrev any_measured : Assignment → Bool
any_measured a =
    is_some a.last_purchase_at
    || is_some a.frequency
    || is_some a.monetary
    || is_some a.r_score
    || is_some a.f_score
    || is_some a.m_score

-- `not any(value is None for value in raw_values)`
abbrev all_raw : Assignment → Bool
all_raw a = is_some a.last_purchase_at && is_some a.frequency && is_some a.monetary

unfoldable pub validate : Assignment → Result Error Unit
validate a =
    if not (is_some a.label_code) && any_measured a
    then err (measured_unlabelled a.customer_id)
    else if is_some a.label_code && not (all_raw a)
    then err (labelled_unmeasured a.customer_id)
    else ok tt

-- `assignment.customer_id in seen`
abbrev pub contains : ℕ → List ℕ → Bool
contains i seen = any (λ j. j == i) seen

validate_all : List ℕ → List Assignment → Result Error Unit
validate_all seen [] = ok tt
validate_all seen (a ∷ rest) =
    validate a
    >> raise_if (contains a.customer_id seen) (appears_twice a.customer_id)
    >> validate_all (a.customer_id ∷ seen) rest

unfoldable pub validated : MethodOutput → Result Error (List Assignment)
unfolding validate_all
validated output = validate_all [] output.assignments >>= λ _. ok output.assignments

abbrev pub idents : List Assignment → List ℕ
idents = map (λ a. a.customer_id)

abbrev pub Distinct : List ℕ → Type 0
Distinct [] = Unit
Distinct (x ∷ xs) = (contains x xs ≡ false) × Distinct xs

-- An unlabelled customer carries no measure, and a labelled one every raw value.
pub record IsRecordable (a : Assignment) : Type 0 where
  pub kind :
      (a.label_code ≡ none)
        × (a.last_purchase_at ≡ none)
        × (a.frequency ≡ none)
        × (a.monetary ≡ none)
        × (a.r_score ≡ none)
        × (a.f_score ≡ none)
        × (a.m_score ≡ none)
      ⊎ (is_some a.label_code ≡ true)
        × (is_some a.last_purchase_at ≡ true)
        × (is_some a.frequency ≡ true)
        × (is_some a.monetary ≡ true)

validate-IsRecordable : (a : Assignment) → validate a ≡ ok tt → IsRecordable a
unfolding validate
validate-IsRecordable a h = elim (Option-cases a.label_code) [
  | inl missing ↦ record { kind = inl (ground arith) }
  | inr (l, there) ↦ record { kind = inr (ground arith) }
]

IsRecordable-validate : (a : Assignment) → IsRecordable a → validate a ≡ ok tt
unfolding validate
IsRecordable-validate a h = ground (arith, h.kind)

-- No customer of `rest` is in `seen`.
abbrev Unseen : List ℕ → List Assignment → Type 0
Unseen seen = All (λ a. contains a.customer_id seen ≡ false)

Unseen-cons :
    (i : ℕ) (seen : List ℕ) (rest : List Assignment)
    → Unseen (i ∷ seen) rest
    → (contains i (idents rest) ≡ false) × Unseen seen rest
Unseen-cons i seen [] h = (refl, tt)
Unseen-cons i seen (a ∷ rest) h = ground (arith, Unseen-cons i seen rest h.1)

cons-Unseen :
    (i : ℕ) (seen : List ℕ) (rest : List Assignment)
    → contains i (idents rest) ≡ false
    → Unseen seen rest
    → Unseen (i ∷ seen) rest
cons-Unseen i seen [] h k = tt
cons-Unseen i seen (a ∷ rest) h k = ground (arith, cons-Unseen i seen rest)

validate_all_sound :
    (seen : List ℕ) (rows : List Assignment)
    → validate_all seen rows ≡ ok tt
    → All IsRecordable rows × Unseen seen rows × Distinct (idents rows)
unfolding validate_all
validate_all_sound seen [] h = (tt, tt, tt)
validate_all_sound seen (a ∷ rest) h = ground (
  arith,
  validate-IsRecordable a,
  validate_all_sound (a.customer_id ∷ seen) rest,
  Unseen-cons a.customer_id seen rest,
)

validate_all_complete :
    (seen : List ℕ) (rows : List Assignment)
    → All IsRecordable rows
    → Unseen seen rows
    → Distinct (idents rows)
    → validate_all seen rows ≡ ok tt
unfolding validate_all
validate_all_complete seen [] h u d = refl
validate_all_complete seen (a ∷ rest) h u d = ground (
  arith,
  IsRecordable-validate a h.0,
  validate_all_complete (a.customer_id ∷ seen) rest h.1,
  cons-Unseen a.customer_id seen rest d.0 u.1,
)

Unseen-nil : (rows : List Assignment) → Unseen [] rows
Unseen-nil [] = tt
Unseen-nil (a ∷ rest) = (refl, Unseen-nil rest)

-- The check lets an output through, unchanged, when every assignment is recordable and no customer appears
-- twice.
pub validated_complete :
    (output : MethodOutput)
    → All IsRecordable output.assignments
    → Distinct (idents output.assignments)
    → validated output ≡ ok output.assignments
unfolding validated
validated_complete output h d =
    rw (validate_all_complete [] output.assignments h (Unseen-nil output.assignments) d)

-- What the check lets through is the output's own list, with every assignment recordable and no customer
-- twice: an assignment without a label has no measure, and one with a label has its three raw values.
pub validated_sound :
    (output : MethodOutput) (rows : List Assignment)
    → validated output ≡ ok rows
    → (rows ≡ output.assignments) × All IsRecordable rows × Distinct (idents rows)
unfolding validated
validated_sound output rows h = ground (arith, validate_all_sound [] output.assignments)
