-- ===== src/Migration/Matrix.antt =====
-- The cross-tabulation of migrations: `migration_cell_labels` and `build_migration_matrix`.
use mathlib.Core.List.{foldr}
use retail_segmentation.Prelude.{
  ℕ, ◌+◌, Option, none, some, List, [], ◌∷◌, ◌++◌, map, ltb, sort_by, String, str_eq, Result, ok,
  err, ◌>>=◌,
}
use retail_segmentation.Migration.Dicts.{Dict, dict, get, put, values_of}
use retail_segmentation.Migration.Classify.{
  CustomerMigration, MigrationCategory, MigrationError, Ordinals, absent_from_earlier,
  absent_from_later, no_cell,
}

abbrev pub unassigned_name : String
unassigned_name = "Unassigned"

abbrev pub not_in_earlier : String
not_in_earlier = "Not in earlier run"

abbrev pub not_in_later : String
not_in_later = "Not in later run"

abbrev pub Grid : Type 0 → Type 0
Grid V = Dict String (Dict String V)

pub record MigrationMatrix : Type 0 where
  pub row_labels : List String
  pub column_labels : List String
  pub cells : Grid ℕ
  pub row_totals : Dict String ℕ
  pub column_totals : Dict String ℕ
  pub cell_migrations : Grid (List CustomerMigration)

abbrev pub label_or_unassigned : Option String → String
label_or_unassigned none = unassigned_name
label_or_unassigned (some label) = label

unfoldable pub migration_row : MigrationCategory → Option String → String
migration_row absent_from_earlier label = not_in_earlier
migration_row _ label = label_or_unassigned label

unfoldable pub migration_column : MigrationCategory → Option String → String
migration_column absent_from_later label = not_in_later
migration_column _ label = label_or_unassigned label

unfoldable pub migration_cell_labels : CustomerMigration → String × String
unfolding migration_row migration_column
migration_cell_labels m =
    (migration_row m.category m.label_before, migration_column m.category m.label_after)

-- The labels best to worst.
unfoldable pub ordered_labels : Ordinals → List String
unfolding sort_by
ordered_labels ordinals = map (λ e. e.0) (sort_by (λ (a b : String × ℕ). ltb a.1 b.1) ordinals)

-- A grid that holds `v` everywhere.
unfoldable pub filled : {V : Type 0} → V → List String → List String → Grid V
filled v rows columns =
    dict str_eq (map (λ row. (row, dict str_eq (map (λ column. (column, v)) columns))) rows)

abbrev pub found_in : {V : Type 0} → String → String → Option V → Result MigrationError V
found_in row column none = err (no_cell row column)
found_in row column (some v) = ok v

-- `cells[row][column] = f(cells[row][column])`
unfoldable pub change_cell :
    {V : Type 0} → String → String → (V → V) → Grid V → Result MigrationError (Grid V)
change_cell row column f cells = do
  columns ← found_in row column (get str_eq row cells)
  v ← found_in row column (get str_eq column columns)
  ok (put str_eq row (put str_eq column (f v) columns) cells)

-- The loop over the migrations.
unfoldable pub tally :
    List CustomerMigration
    → Grid ℕ
    → Grid (List CustomerMigration)
    → Result MigrationError (Grid ℕ × Grid (List CustomerMigration))
unfolding migration_cell_labels change_cell
tally [] cells members = ok (cells, members)
tally (m ∷ migrations) cells members = do
  cells' ← change_cell (migration_cell_labels m).0 (migration_cell_labels m).1 (λ n. n + 1) cells
  members' ←
      change_cell (migration_cell_labels m).0 (migration_cell_labels m).1 (λ ms. ms ++ m ∷ [])
        members
  tally migrations cells' members'

abbrev pub sum : List ℕ → ℕ
sum ns = foldr (λ n s. n + s) 0 ns

-- `sum(cells[row].values())`, for a row of the grid.
abbrev pub row_sum : Option (Dict String ℕ) → ℕ
row_sum none = 0
row_sum (some columns) = sum (values_of columns)

abbrev pub or_zero : Option ℕ → ℕ
or_zero none = 0
or_zero (some n) = n

abbrev pub in_column : String → Option (Dict String ℕ) → ℕ
in_column column none = 0
in_column column (some columns) = or_zero (get str_eq column columns)

-- `sum(cells[row][column] for row in row_labels)`
abbrev pub column_sum : Grid ℕ → List String → String → ℕ
column_sum cells rows column = sum (map (λ row. in_column column (get str_eq row cells)) rows)

unfoldable pub build_migration_matrix :
    List CustomerMigration → Ordinals → Result MigrationError MigrationMatrix
unfolding ordered_labels filled tally
build_migration_matrix migrations ordinals = do
  let row_labels = ordered_labels ordinals ++ unassigned_name ∷ not_in_earlier ∷ []
  let column_labels = ordered_labels ordinals ++ unassigned_name ∷ not_in_later ∷ []
  tallied ←
      tally migrations (filled 0 row_labels column_labels) (filled [] row_labels column_labels)
  ok (record {
    row_labels = row_labels;
    column_labels = column_labels;
    cells = tallied.0;
    row_totals = dict str_eq (map (λ row. (row, row_sum (get str_eq row tallied.0))) row_labels);
    column_totals =
        dict str_eq
          (map (λ column. (column, column_sum tallied.0 row_labels column)) column_labels);
    cell_migrations = tallied.1;
  })
