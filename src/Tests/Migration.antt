-- ===== src/Tests/Migration.antt =====
-- Two runs compared, at a concrete database.
use mathlib.Core.Path.{subst}
use retail_segmentation.Prelude.{
  sym, ℕ, ◌≡◌, ◌≤◌, refl, none, some, Option, List, [], ◌∷◌, map, any, count_if, keep, length,
  if◌then◌else◌, ok, arith, String, str_eq, eq_iff, sort_by, ◌==◌, Bool-cases, inl, inr,
}
use retail_segmentation.Segmentation.Store.{Db, HistoryRow, Run}
use retail_segmentation.Segmentation.Domain.{Fields}
use retail_segmentation.Migration.Dicts.{get, str_eq-IsEquality}
use retail_segmentation.Migration.Classify.{
  CustomerMigration, Labels, Ordinals, classify, classify_labels, classify_migration,
  compute_migration, get_label_ordinals, get_run_at, improved, label_for, list_run_labels,
  migration_of, moved, moved_between, newly_unassigned, absent_from_earlier, rank_of, try_map,
}
use retail_segmentation.Migration.Matrix.{
  MigrationMatrix, build_migration_matrix, change_cell, filled, migration_cell_labels,
  migration_column, migration_row, not_in_earlier, or_zero, ordered_labels, sum, tally,
}
use retail_segmentation.Migration.Cells.{cell, is_cell, matrix_counts}
use retail_segmentation.Migration.Totals.{NoLabelTwice, is_column, is_row}
use retail_segmentation.Migration.Reconcile.{totals_reconcile}
use retail_segmentation.Migration.Order.{between, compute_migration_order}
use retail_segmentation.Migration.Total.{IsKnown}
use retail_segmentation.Migration.Everyone.{IsCompared, classify_migration-IsCompared}
use retail_segmentation.Migration.Earlier.{earlier_run_reconciles}
use retail_segmentation.Tests.Data.{shop}

abbrev history_row : ℕ → ℕ → Option String → HistoryRow
history_row run customer label = record {
  customer_id = customer;
  run_id = run;
  segment_id = none;
  label_code = label;
  last_purchase_at = none;
  frequency = none;
  monetary = none;
  r_score = none;
  f_score = none;
  m_score = none;
  valid_from = 1;
  valid_to = none;
}

abbrev run_row : ℕ → ℕ → Run
run_row i at = record {
  run_id = i;
  method = "KMEANS";
  window_days = 30;
  parameters = Fields.end;
  customer_count = 2;
  run_at = at;
  data_origin = "OBSERVED";
}

abbrev twice : Db
twice = record shop {
  labels =
      record { label_code = "SILVER"; ordinal_position = 2 }
      ∷ record { label_code = "GOLD"; ordinal_position = 1 }
      ∷ [];
  runs = run_row 1 100 ∷ run_row 2 200 ∷ [];
  history =
      history_row 1 7 (some "SILVER")
      ∷ history_row 1 8 (some "GOLD")
      ∷ history_row 2 7 (some "GOLD")
      ∷ history_row 2 8 none
      ∷ history_row 2 9 (some "SILVER")
      ∷ [];
}

abbrev three_moves : List CustomerMigration
three_moves =
    record {
      customer_id = 7;
      label_before = some "SILVER";
      label_after = some "GOLD";
      category = moved;
      direction = some improved;
    }
    ∷ record {
      customer_id = 8;
      label_before = some "GOLD";
      label_after = none;
      category = newly_unassigned;
      direction = none;
    }
    ∷ record {
      customer_id = 9;
      label_before = none;
      label_after = some "SILVER";
      category = absent_from_earlier;
      direction = none;
    }
    ∷ []

abbrev ordinals : Ordinals
ordinals = ("SILVER", 2) ∷ ("GOLD", 1) ∷ []

abbrev grid_of : {V : Type 0} → V → V → V → V → List (String × List (String × V))
grid_of none_there silver_gold gold_unassigned absent_silver =
    (
      "GOLD",
      ("GOLD", none_there)
          ∷ ("SILVER", none_there)
          ∷ ("Unassigned", gold_unassigned)
          ∷ ("Not in later run", none_there)
          ∷ [],
    )
    ∷ (
      "SILVER",
      ("GOLD", silver_gold)
          ∷ ("SILVER", none_there)
          ∷ ("Unassigned", none_there)
          ∷ ("Not in later run", none_there)
          ∷ [],
    )
    ∷ (
      "Unassigned",
      ("GOLD", none_there)
          ∷ ("SILVER", none_there)
          ∷ ("Unassigned", none_there)
          ∷ ("Not in later run", none_there)
          ∷ [],
    )
    ∷ (
      "Not in earlier run",
      ("GOLD", none_there)
          ∷ ("SILVER", absent_silver)
          ∷ ("Unassigned", none_there)
          ∷ ("Not in later run", none_there)
          ∷ [],
    )
    ∷ []

abbrev small_matrix : MigrationMatrix
small_matrix = record {
  row_labels = "GOLD" ∷ "SILVER" ∷ "Unassigned" ∷ "Not in earlier run" ∷ [];
  column_labels = "GOLD" ∷ "SILVER" ∷ "Unassigned" ∷ "Not in later run" ∷ [];
  cells = grid_of 0 1 1 1;
  row_totals = ("GOLD", 1) ∷ ("SILVER", 1) ∷ ("Unassigned", 0) ∷ ("Not in earlier run", 1) ∷ [];
  column_totals = ("GOLD", 1) ∷ ("SILVER", 1) ∷ ("Unassigned", 1) ∷ ("Not in later run", 0) ∷ [];
  cell_migrations =
      grid_of []
        (record {
          customer_id = 7;
          label_before = some "SILVER";
          label_after = some "GOLD";
          category = moved;
          direction = some improved;
        }
          ∷ [])
        (record {
          customer_id = 8;
          label_before = some "GOLD";
          label_after = none;
          category = newly_unassigned;
          direction = none;
        }
          ∷ [])
        (record {
          customer_id = 9;
          label_before = none;
          label_after = some "SILVER";
          category = absent_from_earlier;
          direction = none;
        }
          ∷ []);
}

were_compared : between twice 1 2 ≡ ok three_moves
unfolding classify_migration list_run_labels get_label_ordinals migration_of classify
    classify_labels moved_between rank_of try_map sort_by
were_compared = refl

the_ordinals : get_label_ordinals twice ≡ ordinals
unfolding get_label_ordinals
the_ordinals = refl

was_built : build_migration_matrix three_moves (get_label_ordinals twice) ≡ ok small_matrix
unfolding build_migration_matrix get_label_ordinals ordered_labels filled tally change_cell
    migration_cell_labels migration_row migration_column sort_by
was_built = refl

earlier_run_reconciles_example : get str_eq "GOLD" small_matrix.row_totals ≡ some 1
unfolding list_run_labels
earlier_run_reconciles_example =
    earlier_run_reconciles twice 1 2 three_moves small_matrix were_compared was_built "GOLD"
      (λ e. ground (arith, e, eq_iff "GOLD" not_in_earlier))

matrix_counts_example :
    (cell small_matrix.cells "SILVER" "GOLD"
      ≡ some (count_if (is_cell "SILVER" "GOLD") three_moves))
    × (cell small_matrix.cell_migrations "SILVER" "GOLD"
        ≡ some (keep (is_cell "SILVER" "GOLD") three_moves))
matrix_counts_example =
    matrix_counts three_moves (get_label_ordinals twice) small_matrix was_built "SILVER" "GOLD"

abbrev AtMostOnce : String → Type 0
AtMostOnce l =
    count_if (λ row. str_eq l row) ("GOLD" ∷ "SILVER" ∷ "Unassigned" ∷ "Not in earlier run" ∷ [])
    ≤ 1

labels_once : NoLabelTwice ("GOLD" ∷ "SILVER" ∷ "Unassigned" ∷ "Not in earlier run" ∷ [])
labels_once l = elim (Bool-cases (str_eq l "GOLD")) [
  | inl t ↦ subst AtMostOnce (sym (str_eq-IsEquality.same l "GOLD" t)) (omega arith)
  | inr a ↦ elim (Bool-cases (str_eq l "SILVER")) [
    | inl t ↦ subst AtMostOnce (sym (str_eq-IsEquality.same l "SILVER" t)) (omega arith)
    | inr b ↦ elim (Bool-cases (str_eq l "Unassigned")) [
      | inl t ↦ subst AtMostOnce (sym (str_eq-IsEquality.same l "Unassigned" t)) (omega arith)
      | inr c ↦ rw (a, b, c) (ground arith)
    ]
  ]
]

totals_reconcile_example :
    ((r : String)
      → get str_eq r small_matrix.row_totals ≡ (
          if any (λ row. str_eq row r) small_matrix.row_labels
          then some (count_if (is_row r) three_moves)
          else none))
    × ((c : String)
        → get str_eq c small_matrix.column_totals ≡ (
            if any (λ column. str_eq column c) small_matrix.column_labels
            then some (count_if (is_column c) three_moves)
            else none))
    × (sum (map (λ row. or_zero (get str_eq row small_matrix.row_totals)) small_matrix.row_labels)
        ≡ length three_moves)
totals_reconcile_example =
    totals_reconcile three_moves (get_label_ordinals twice) small_matrix was_built labels_once

first_run : get_run_at twice 1 ≡ some 100
unfolding get_run_at
first_run = refl

second_run : get_run_at twice 2 ≡ some 200
unfolding get_run_at
second_run = refl

compute_migration_order_example :
    (compute_migration twice 1 2 ≡ between twice 1 2)
    × (compute_migration twice 2 1 ≡ between twice 1 2)
compute_migration_order_example =
    compute_migration_order twice 1 2 100 200 first_run second_run (omega arith)

abbrev first_labels : Labels
first_labels = (7, some "SILVER") ∷ []

abbrev second_labels : Labels
second_labels = (7, some "GOLD") ∷ []

label_for-IsKnown :
    (label : String) (c : ℕ)
    → IsKnown ordinals (some label)
    → IsKnown ordinals (label_for ((7, some label) ∷ []) c)
label_for-IsKnown label c h = elim (Bool-cases (7 == c)) [ inl t ↦ rw t h | inr f ↦ rw f tt ]

classify_migration-IsCompared_example : IsCompared first_labels second_labels ordinals
classify_migration-IsCompared_example =
    classify_migration-IsCompared first_labels second_labels ordinals
      (λ c. label_for-IsKnown "SILVER" c refl) (λ c. label_for-IsKnown "GOLD" c refl)
