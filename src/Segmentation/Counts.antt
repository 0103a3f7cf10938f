-- ===== src/Segmentation/Counts.antt =====
-- `summarise` of web/services/segmentation.py: what a run changed.
use retail_segmentation.Prelude.{
  ℕ, ◌+◌, ◌-◌, ◌≤◌, ◌≡◌, refl, Bool, true, false, ◌&&◌, not, Option, none, some, List, [], ◌∷◌,
  arith, ◌==◌, if◌then◌else◌, str_eq, eq_iff, String, length, count_if, count_if-le-length, All,
  ◌↔◌,
}
use retail_segmentation.Segmentation.Domain.{Assignment, RunCounts, is_some}

-- A customer's open assignment before the run, `(segment_id, label_code)`.
abbrev pub Open : Type 0
Open = Option ℕ × Option String

-- The dict that `read_open_assignments` returns, by its `in` and `[]`.
abbrev pub Prior : Type 0
Prior = ℕ → Option Open

abbrev same_segment : Option ℕ → Option ℕ → Bool
same_segment none none = true
same_segment (some i) (some j) = i == j
same_segment _ _ = false

abbrev same_label : Option String → Option String → Bool
same_label none none = true
same_label (some a) (some b) = str_eq a b
same_label _ _ = false

-- `a.customer_id in prior and prior[a.customer_id] == (a.segment_id, a.label_code)`
abbrev is_same : Option Open → Assignment → Bool
is_same none a = false
is_same (some (segment, label)) a =
    same_segment segment a.segment_id && same_label label a.label_code

unfoldable pub unchanged : Prior → Assignment → Bool
unchanged prior a = is_same (prior a.customer_id) a

-- The loop's `reassigned, cleared` after one assignment.
tally : Prior → Assignment → ℕ × ℕ → ℕ × ℕ
unfolding unchanged
tally prior a (reassigned, cleared) =
    if unchanged prior a
    then (reassigned, cleared)
    else if is_some a.label_code
    then (reassigned + 1, cleared)
    else (reassigned, cleared + 1)

tally_all : Prior → List Assignment → ℕ × ℕ → ℕ × ℕ
unfolding tally
tally_all prior [] counts = counts
tally_all prior (a ∷ rest) counts = tally_all prior rest (tally prior a counts)

unfoldable pub summarise : List Assignment → Prior → RunCounts
unfolding tally_all
summarise rows prior =
    let assigned = count_if (λ a. is_some a.label_code) rows in
    let (reassigned, cleared) = tally_all prior rows (0, 0) in
    record {
      processed = length rows;
      assigned = assigned;
      unmatched = length rows - assigned;
      reassigned = reassigned;
      cleared = cleared;
      fallback = count_if (λ a. a.via_fallback) rows;
    }

-- A changed assignment that leaves a label, and one that leaves none.
abbrev pub moved : Prior → Assignment → Bool
moved prior a = not (unchanged prior a) && is_some a.label_code

abbrev pub emptied : Prior → Assignment → Bool
emptied prior a = not (unchanged prior a) && not (is_some a.label_code)

tally_all-counts :
    (prior : Prior) (rows : List Assignment) (r c : ℕ)
    → tally_all prior rows (r, c)
      ≡ (r + count_if (moved prior) rows, c + count_if (emptied prior) rows)
unfolding tally_all tally
tally_all-counts prior [] r c = ground arith
tally_all-counts prior (a ∷ rest) r c = ground (
  arith,
  tally_all-counts prior rest r c,
  tally_all-counts prior rest (r + 1) c,
  tally_all-counts prior rest r (c + 1),
)

changes-eq-zero :
    (prior : Prior) (rows : List Assignment)
    → (count_if (moved prior) rows ≡ 0) × (count_if (emptied prior) rows ≡ 0)
    → All (λ a. unchanged prior a ≡ true) rows
changes-eq-zero prior [] h = tt
changes-eq-zero prior (a ∷ rest) h = ground (arith, changes-eq-zero prior rest)

zero-changes :
    (prior : Prior) (rows : List Assignment)
    → All (λ a. unchanged prior a ≡ true) rows
    → (count_if (moved prior) rows ≡ 0) × (count_if (emptied prior) rows ≡ 0)
zero-changes prior [] h = (refl, refl)
zero-changes prior (a ∷ rest) h = ground (arith, zero-changes prior rest)

same_segment-eq : (a b : Option ℕ) → same_segment a b ≡ true → a ≡ b
same_segment-eq none none h = refl
same_segment-eq none (some b) h = cc
same_segment-eq (some a) none h = cc
same_segment-eq (some a) (some b) h = ground arith

same_label-eq : (a b : Option String) → same_label a b ≡ true → a ≡ b
same_label-eq none none h = refl
same_label-eq none (some b) h = cc
same_label-eq (some a) none h = cc
same_label-eq (some a) (some b) h = ground (arith, eq_iff a b)

same_segment_self : (a : Option ℕ) → same_segment a a ≡ true
same_segment_self none = refl
same_segment_self (some a) = ground arith

same_label_self : (a : Option String) → same_label a a ≡ true
same_label_self none = refl
same_label_self (some a) = ground (arith, eq_iff a a)

is_same-open :
    (o : Option Open) (a : Assignment)
    → (is_same o a ≡ true) ↔ (o ≡ some (a.segment_id, a.label_code))
is_same-open none a = (λ h. cc, λ h. cc)
is_same-open (some (s, l)) a = (
  λ h. ground (arith, same_segment-eq s a.segment_id, same_label-eq l a.label_code),
  λ h. ground (arith, same_segment_self a.segment_id, same_label_self a.label_code),
)

agrees :
    (prior : Prior) (rows : List Assignment)
    → All
        (λ a.
          (unchanged prior a ≡ true) ↔ (prior a.customer_id ≡ some (a.segment_id, a.label_code)))
        rows
unfolding unchanged
agrees prior [] = tt
agrees prior (a ∷ rest) = (is_same-open (prior a.customer_id) a, agrees prior rest)

-- The two counts of changes are the numbers of the assignments that differ from the customer's open row and
-- have a label, and that differ from it and have none; an assignment is unchanged exactly when the customer has an
-- open row and its segment and label are the assignment's.
pub summarise_changes :
    (rows : List Assignment) (prior : Prior)
    → ((summarise rows prior).reassigned ≡ count_if (moved prior) rows)
      × ((summarise rows prior).cleared ≡ count_if (emptied prior) rows)
      × All
          (λ a.
            (unchanged prior a ≡ true) ↔ (prior a.customer_id ≡ some (a.segment_id, a.label_code)))
          rows
unfolding summarise
summarise_changes rows prior =
    let (moves, clears) = changes prior rows in (moves, clears, agrees prior rows)
  where
    changes :
        (prior : Prior) (rows : List Assignment)
        → ((summarise rows prior).reassigned ≡ count_if (moved prior) rows)
          × ((summarise rows prior).cleared ≡ count_if (emptied prior) rows)
    changes prior rows = ground (arith, tally_all-counts prior rows 0 0)

opens :
    (prior : Prior) (rows : List Assignment)
    → All (λ a. unchanged prior a ≡ true) rows
    → All (λ a. prior a.customer_id ≡ some (a.segment_id, a.label_code)) rows
unfolding unchanged
opens prior [] h = tt
opens prior (a ∷ rest) h = ((is_same-open (prior a.customer_id) a).0 h.0, opens prior rest h.1)

still_open :
    (prior : Prior) (rows : List Assignment)
    → All (λ a. prior a.customer_id ≡ some (a.segment_id, a.label_code)) rows
    → All (λ a. unchanged prior a ≡ true) rows
unfolding unchanged
still_open prior [] h = tt
still_open prior (a ∷ rest) h =
    ((is_same-open (prior a.customer_id) a).1 h.0, still_open prior rest h.1)

-- Both counts of changes are 0 exactly when every customer of the run had an open row with the same segment
-- and the same label.
pub summarise-no_change :
    (rows : List Assignment) (prior : Prior)
    → (((summarise rows prior).reassigned ≡ 0) × ((summarise rows prior).cleared ≡ 0))
      ↔ All (λ a. prior a.customer_id ≡ some (a.segment_id, a.label_code)) rows
summarise-no_change rows prior =
    let counts = summarise_changes rows prior in
    (
      λ h. opens prior rows (changes-eq-zero prior rows (omega (arith, counts.0, counts.1))),
      λ h.
          let z = zero-changes prior rows (still_open prior rows h) in
          omega (arith, counts.0, counts.1, z.0, z.1),
    )

moved-le-labelled :
    (prior : Prior) (rows : List Assignment)
    → (count_if (moved prior) rows ≤ count_if (λ a. is_some a.label_code) rows)
      × (count_if (emptied prior) rows + count_if (λ a. is_some a.label_code) rows ≤ length rows)
moved-le-labelled prior [] = omega arith
moved-le-labelled prior (a ∷ rest) = ground (arith, moved-le-labelled prior rest)

-- The counts agree: those assigned and those unmatched make up those processed, the reassigned are no more
-- than the assigned, the cleared no more than the unmatched, and the fallbacks no more than the processed.
pub summarise_consistent :
    (rows : List Assignment) (prior : Prior)
    → let c = summarise rows prior in
      (c.assigned + c.unmatched ≡ c.processed)
      × (c.reassigned ≤ c.assigned)
      × (c.cleared ≤ c.unmatched)
      × (c.fallback ≤ c.processed)
unfolding summarise
summarise_consistent rows prior = ground (
  arith,
  tally_all-counts prior rows 0 0,
  moved-le-labelled prior rows,
  count_if-le-length (λ (a : Assignment). a.via_fallback) rows,
)
