-- ===== src/Tests/Scoring.antt =====
-- Checks, scores, counts and windows, at concrete values.
use retail_segmentation.Prelude.{
  ℕ, ◌≤◌, ◌≡◌, true, ◌≢◌, ◌↔◌, refl, none, some, List, [], ◌∷◌, count_if, All, ok, ltb, arith, inl,
  inr, sort_by,
}
use retail_segmentation.Segmentation.Checks.{
  IsRecordable, Distinct, idents, validate, validated, validated_sound, validated_complete,
}
use retail_segmentation.Segmentation.Counts.{
  summarise, unchanged, moved, emptied, summarise_changes, summarise-no_change,
}
use retail_segmentation.Segmentation.Scoring.{score, rfm_output, worst}
use retail_segmentation.Segmentation.Scoring.Quintiles.{score_bounds, score_mono}
use retail_segmentation.Segmentation.Scoring.Labelled.{rfm_output-validated}
use retail_segmentation.Segmentation.Window.{parse_window, padded, parse_window-decimal}
use retail_segmentation.Tests.Data.{two_rows, one_open_label, shop}

validated_two : validated two_rows ≡ ok two_rows.assignments
unfolding validated validate
validated_two = refl

validated_sound_example :
    (two_rows.assignments ≡ two_rows.assignments)
    × All IsRecordable two_rows.assignments
    × Distinct (idents two_rows.assignments)
validated_sound_example = validated_sound two_rows two_rows.assignments validated_two

validated_complete_example : validated two_rows ≡ ok two_rows.assignments
validated_complete_example =
    validated_complete two_rows
      (
        record { kind = inr (refl, refl, refl, refl) },
        (record { kind = inl (refl, refl, refl, refl, refl, refl, refl) }, tt),
      )
      (refl, (refl, tt))

abbrev measures : List ℕ
measures = 40 ∷ 10 ∷ 30 ∷ 20 ∷ 60 ∷ 50 ∷ []

score_bounds_example : (1 ≤ score measures 30) × (score measures 30 ≤ 5)
score_bounds_example = score_bounds measures 30 refl

score_mono_example : score measures 10 ≤ score measures 50
score_mono_example = score_mono measures 10 50 (omega arith) refl

summarise_changes_example :
    ((summarise two_rows.assignments one_open_label).reassigned
      ≡ count_if (moved one_open_label) two_rows.assignments)
    × ((summarise two_rows.assignments one_open_label).cleared
        ≡ count_if (emptied one_open_label) two_rows.assignments)
    × All
        (λ a.
          (unchanged one_open_label a ≡ true)
          ↔ (one_open_label a.customer_id ≡ some (a.segment_id, a.label_code)))
        two_rows.assignments
summarise_changes_example = summarise_changes two_rows.assignments one_open_label

summarise-no_change_example :
    (((summarise two_rows.assignments one_open_label).reassigned ≡ 0)
      × ((summarise two_rows.assignments one_open_label).cleared ≡ 0))
    ↔ All
        (λ a. one_open_label a.customer_id ≡ some (a.segment_id, a.label_code))
        two_rows.assignments
summarise-no_change_example = summarise-no_change two_rows.assignments one_open_label

default_accepted : parse_window none ≡ ok 180
unfolding parse_window
default_accepted = refl

parse_window-decimal_example : parse_window (some (padded 365)) ≡ ok 365
parse_window-decimal_example = parse_window-decimal 365 (omega arith) (omega arith)

worst_there : worst shop ≢ none
unfolding worst sort_by
worst_there = λ e. ground arith

rfm_output-validated_example :
    (validated (rfm_output shop 30) ≡ ok (rfm_output shop 30).assignments)
    × (idents (rfm_output shop 30).assignments ≡ sort_by ltb shop.customers)
rfm_output-validated_example = rfm_output-validated shop 30 worst_there (refl, (refl, tt))
