-- ===== src/Migration/Reconcile.antt =====
-- The totals of the matrix against the migrations.
use retail_segmentation.Prelude.{
  ℕ, suc, ◌+◌, ◌≡◌, refl, ap, ◌∙◌, Bool, true, false, ◌&&◌, none, some, List, [], ◌∷◌, map, any,
  count_if, length, All, All-mono, if◌then◌else◌, arith, Bool-cases, inl, inr, String, str_eq, ok,
}
use retail_segmentation.Migration.Dicts.{get, get-dict, str_eq-IsEquality}
use retail_segmentation.Migration.Classify.{CustomerMigration, Ordinals}
use retail_segmentation.Migration.Matrix.{
  MigrationMatrix, build_migration_matrix, column_sum, or_zero, row_sum, sum,
}
use retail_segmentation.Migration.Cells.{is_cell, matrix-IsTallied, matrix_counts}
use retail_segmentation.Migration.Totals.{
  NoLabelTwice, is_row, is_column, in_column-cell, in_one_row, row_sum-filled, row_sum-tally,
  sum-counts,
}

sum-map {ℓ} :
    {A : Type ℓ} (f g : A → ℕ) (xs : List A)
    → All (λ x. f x ≡ g x) xs
    → sum (map f xs) ≡ sum (map g xs)
sum-map f g [] h = refl
sum-map f g (x ∷ xs) h = omega (arith, h.0, sum-map f g xs h.1)

-- Every label of a list is found there.
labels_there : (rows : List String) → All (λ r. any (λ row. str_eq row r) rows ≡ true) rows
labels_there [] = tt
labels_there (r ∷ rows) = (
  rw (str_eq-IsEquality.itself r) refl,
  All-mono (λ s. any (λ row. str_eq row s) rows ≡ true)
      (λ s. any (λ row. str_eq row s) (r ∷ rows) ≡ true) (λ s h. ground (arith, h)) rows
      (labels_there rows),
)

count-and :
    (f : String → Bool) (b : Bool) (rows : List String)
    → count_if (λ r. f r && b) rows ≡ (if b then count_if f rows else 0)
count-and f true [] = refl
count-and f false [] = refl
count-and f true (r ∷ rows) = ground (arith, count-and f true rows)
count-and f false (r ∷ rows) = ground (arith, count-and f false rows)

all_counted {ℓ} : {A : Type ℓ} (xs : List A) → count_if (λ x. true) xs ≡ length xs
all_counted [] = refl
all_counted (x ∷ xs) = ap suc (all_counted xs)

module _ (migrations : List CustomerMigration) (ordinals : Ordinals) (matrix : MigrationMatrix)
    (built : build_migration_matrix migrations ordinals ≡ ok matrix) where
  pub row_total :
      (r : String)
      → get str_eq r matrix.row_totals ≡ (
          if any (λ row. str_eq row r) matrix.row_labels
          then some (count_if (is_row r) migrations)
          else none)
  row_total r =
      let (tallied, rows, columns) = matrix-IsTallied migrations ordinals matrix built in
      let total = row_sum-tally migrations _ matrix.cells _ matrix.cell_migrations r tallied in
      let zero_at_first = row_sum-filled matrix.row_labels matrix.column_labels r in
      let e : row_sum (get str_eq r matrix.cells) ≡ count_if (is_row r) migrations =
        total ∙ ap (λ n. n + count_if (is_row r) migrations) zero_at_first ∙ omega arith in
      ap (get str_eq r) rows
      ∙ get-dict str_eq str_eq-IsEquality (λ row. row_sum (get str_eq row matrix.cells)) r
          matrix.row_labels
      ∙ ap (λ n. if any (λ row. str_eq row r) matrix.row_labels then some n else none) e

  module _ (once : NoLabelTwice matrix.row_labels) where
    column_sum_lem :
        (c : String)
        → any (λ column. str_eq column c) matrix.column_labels ≡ true
        → column_sum matrix.cells matrix.row_labels c ≡ count_if (is_column c) migrations
    column_sum_lem c there =
        sum-map _ (λ r. count_if (is_cell r c) migrations) matrix.row_labels
          (All-mono (λ r. any (λ row. str_eq row r) matrix.row_labels ≡ true) _
            (λ r h.
              in_column-cell c (get str_eq r matrix.cells) r matrix.cells refl
              ∙ ap or_zero (matrix_counts migrations ordinals matrix built r c).0
              ∙ (rw (h, there) refl))
            matrix.row_labels (labels_there matrix.row_labels))
        ∙ sum-counts (λ r m. is_cell r c m) (is_column c) matrix.row_labels migrations
            (All-mono (λ m. count_if (λ r. is_row r m) matrix.row_labels ≡ 1)
              (λ m.
                count_if (λ r. is_cell r c m) matrix.row_labels ≡ (if is_column c m then 1 else 0))
              (λ m h.
                count-and (λ r. is_row r m) (is_column c m) matrix.row_labels
                ∙ ap (λ n. if is_column c m then n else 0) h)
              migrations (in_one_row migrations ordinals matrix built once))

    column_total :
        (c : String)
        → get str_eq c matrix.column_totals ≡ (
            if any (λ column. str_eq column c) matrix.column_labels
            then some (count_if (is_column c) migrations)
            else none)
    column_total c =
        let (tallied, rows, columns) = matrix-IsTallied migrations ordinals matrix built in
        ap (get str_eq c) columns
        ∙ get-dict str_eq str_eq-IsEquality (column_sum matrix.cells matrix.row_labels) c
            matrix.column_labels
        ∙ (elim (Bool-cases (any (λ column. str_eq column c) matrix.column_labels)) [
          | inl t ↦ rw t (ap some (column_sum_lem c t))
          | inr f ↦ rw f refl
        ])

    nobody_dropped :
        sum (map (λ row. or_zero (get str_eq row matrix.row_totals)) matrix.row_labels)
        ≡ length migrations
    nobody_dropped =
        sum-map _ (λ r. count_if (is_row r) migrations) matrix.row_labels
          (All-mono (λ r. any (λ row. str_eq row r) matrix.row_labels ≡ true) _
            (λ r h. ap or_zero (row_total r) ∙ (rw h refl)) matrix.row_labels
            (labels_there matrix.row_labels))
        ∙ sum-counts is_row (λ m. true) matrix.row_labels migrations
            (in_one_row migrations ordinals matrix built once)
        ∙ all_counted migrations

-- When no row label stands twice, the total of a row of the matrix is the number of migrations in it, the
-- total of a column is the number of those in it, and the row totals add up to the number of all migrations.
pub totals_reconcile :
    (migrations : List CustomerMigration) (ordinals : Ordinals) (matrix : MigrationMatrix)
    → build_migration_matrix migrations ordinals ≡ ok matrix
    → NoLabelTwice matrix.row_labels
    → ((r : String)
        → get str_eq r matrix.row_totals ≡ (
            if any (λ row. str_eq row r) matrix.row_labels
            then some (count_if (is_row r) migrations)
            else none))
      × ((c : String)
          → get str_eq c matrix.column_totals ≡ (
              if any (λ column. str_eq column c) matrix.column_labels
              then some (count_if (is_column c) migrations)
              else none))
      × (sum (map (λ row. or_zero (get str_eq row matrix.row_totals)) matrix.row_labels)
          ≡ length migrations)
totals_reconcile migrations ordinals matrix built once = (
  row_total migrations ordinals matrix built,
  column_total migrations ordinals matrix built once,
  nobody_dropped migrations ordinals matrix built once,
)
