-- ===== src/Migration/Cells.antt =====
-- The cells of the matrix, one by one: what `build_migration_matrix` has counted in each.
use mathlib.Core.List.{append_assoc, append-nil}
use mathlib.Core.Path.{subst}
use retail_segmentation.Prelude.{
  ℕ, ◌+◌, ◌≡◌, refl, sym, ap, ◌∙◌, Bool, true, false, ◌&&◌, Option, none, some, List, [], ◌∷◌, ◌++◌,
  map, any, keep, count_if, if◌then◌else◌, arith, Bool-cases, inl, inr, String, str_eq, ok, bind_ok,
  ok_injective,
}
use retail_segmentation.Migration.Dicts.{Dict, dict, get, put, get-put, get-dict, str_eq-IsEquality}
use retail_segmentation.Migration.Classify.{CustomerMigration, Ordinals}
use retail_segmentation.Migration.Matrix.{
  row_sum, column_sum, Grid, MigrationMatrix, build_migration_matrix, change_cell, filled, found_in,
  migration_cell_labels, tally,
}

abbrev pub in_row : {V : Type 0} → String → Option (Dict String V) → Option V
in_row column none = none
in_row column (some columns) = get str_eq column columns

-- `cells[row][column]`
abbrev pub cell : {V : Type 0} → Grid V → String → String → Option V
cell cells row column = in_row column (get str_eq row cells)

abbrev pub on_some : {V W : Type 0} → (V → W) → Option V → Option W
on_some f none = none
on_some f (some v) = some (f v)

abbrev pub is_cell : String → String → CustomerMigration → Bool
is_cell row column m =
    str_eq (migration_cell_labels m).0 row && str_eq (migration_cell_labels m).1 column

on_some_same : {V : Type 0} (o : Option V) → on_some (λ v. v) o ≡ o
on_some_same none = refl
on_some_same (some v) = refl

on_some_fixed : {V : Type 0} (f : V → V) → ((v : V) → f v ≡ v) → (o : Option V) → on_some f o ≡ o
on_some_fixed f h none = refl
on_some_fixed f h (some v) = ap some (h v)

on_some_fuse :
    {U V W : Type 0} (f : V → W) (g : U → V) (k : U → W)
    → ((u : U) → f (g u) ≡ k u)
    → (o : Option U) → on_some f (on_some g o) ≡ on_some k o
on_some_fuse f g k h none = refl
on_some_fuse f g k h (some u) = ap some (h u)

on_some_if :
    {V W : Type 0} (b : Bool) (f : V → W) (v : V) (w : W)
    → f v ≡ w
    → on_some f (if b then some v else none) ≡ (if b then some w else none)
on_some_if true f v w h = ap some h
on_some_if false f v w h = refl

one_counted :
    {A : Type 0} (p : A → Bool) (x : A) (xs : List A) (n : ℕ)
    → (if p x then n + 1 else n) + count_if p xs ≡ n + count_if p (x ∷ xs)
one_counted p x xs n = ground arith

one_kept :
    {A : Type 0} (p : A → Bool) (x : A) (xs ys : List A)
    → (if p x then ys ++ x ∷ [] else ys) ++ keep p xs ≡ ys ++ keep p (x ∷ xs)
one_kept p x xs ys = elim (Bool-cases (p x)) [
  | inl t ↦ rw t (append_assoc ys (x ∷ []) (keep p xs))
  | inr f ↦ rw f refl
]

found_in_ok :
    {V : Type 0} (row column : String) (o : Option V) (v : V)
    → found_in row column o ≡ ok v
    → o ≡ some v
found_in_ok row column none v h = cc
found_in_ok row column (some w) v h = ap some (ok_injective h)

-- A change that succeeds has found its cell, and the row that it replaces.
pub change_cell_ok :
    {V : Type 0} (row column : String) (f : V → V) (g after : Grid V)
    → change_cell row column f g ≡ ok after
    → (columns : Dict String V) × (v : V) × (get str_eq row g ≡ some columns)
      × (get str_eq column columns ≡ some v)
      × (after ≡ put str_eq row (put str_eq column (f v) columns) g)
unfolding change_cell
change_cell_ok row column f g after h =
    let (columns, there, h1) = bind_ok (found_in row column (get str_eq row g)) _ after h in
    let (v, found, h2) = bind_ok (found_in row column (get str_eq column columns)) _ after h1 in
    (
      columns,
      v,
      found_in_ok row column (get str_eq row g) columns there,
      found_in_ok row column (get str_eq column columns) v found,
      sym (ok_injective h2),
    )

pub cell-change_cell :
    {V : Type 0} (row column : String) (f : V → V) (g after : Grid V)
    → change_cell row column f g ≡ ok after
    → (r c : String)
    → cell after r c
      ≡ on_some (λ v. if str_eq row r && str_eq column c then f v else v) (cell g r c)
cell-change_cell row column f g after h r c =
    let (columns, v, there, found, e) = change_cell_ok row column f g after h in
    rw (e, get-put str_eq str_eq-IsEquality r row (put str_eq column (f v) columns) g)
      (elim (Bool-cases (str_eq row r)) [
        | inl t ↦
            rw
              (
                t,
                sym (ap (λ x. get str_eq x g) (str_eq-IsEquality.same row r t)) ∙ there,
                get-put str_eq str_eq-IsEquality c column (f v) columns,
              )
              (elim (Bool-cases (str_eq column c)) [
                | inl u ↦
                    rw
                      (
                        u,
                        sym (ap (λ x. get str_eq x columns) (str_eq-IsEquality.same column c u))
                            ∙ found,
                      )
                      refl
                | inr u ↦ rw u (sym (on_some_same (get str_eq c columns)))
              ])
        | inr t ↦ rw t (sym (on_some_same (cell g r c)))
      ])

-- The cell before and after the loop.
pub cell-tally :
    (migrations : List CustomerMigration) (cells : Grid ℕ) (members : Grid (List CustomerMigration))
    (cells' : Grid ℕ) (members' : Grid (List CustomerMigration))
    → tally migrations cells members ≡ ok (cells', members')
    → (r c : String)
    → (cell cells' r c ≡ on_some (λ n. n + count_if (is_cell r c) migrations) (cell cells r c))
      × (cell members' r c ≡ on_some (λ ms. ms ++ keep (is_cell r c) migrations) (cell members r c))
unfolding tally
cell-tally [] cells members cells' members' h r c =
    let e = ok_injective h in
    (
      ap (λ (q : Grid ℕ × Grid (List CustomerMigration)). cell q.0 r c) (sym e)
          ∙ sym (on_some_fixed (λ n. n + 0) (λ n. omega arith) (cell cells r c)),
      ap (λ (q : Grid ℕ × Grid (List CustomerMigration)). cell q.1 r c) (sym e)
          ∙ sym (
              on_some_fixed (λ (ms : List CustomerMigration). ms ++ []) (λ ms. append-nil ms)
                (cell members r c)),
    )
cell-tally (m ∷ migrations) cells members cells' members' h r c =
    let (row, column) = migration_cell_labels m in
    let (g, h1, k) = bind_ok (change_cell row column (λ n. n + 1) cells) _ (cells', members') h in
    let (g', h2, k') =
      bind_ok (change_cell row column (λ ms. ms ++ m ∷ []) members) _ (cells', members') k in
    let (e, e') = cell-tally migrations g g' cells' members' k' r c in
    (
      e
          ∙ ap (on_some (λ n. n + count_if (is_cell r c) migrations))
              (cell-change_cell row column (λ n. n + 1) cells g h1 r c)
          ∙ on_some_fuse _ _ _ (λ n. one_counted (is_cell r c) m migrations n) (cell cells r c),
      e'
          ∙ ap (on_some (λ (ms : List CustomerMigration). ms ++ keep (is_cell r c) migrations))
              (cell-change_cell row column (λ ms. ms ++ m ∷ []) members g' h2 r c)
          ∙ on_some_fuse _ _ _ (λ ms. one_kept (is_cell r c) m migrations ms) (cell members r c),
    )

-- The cells that are there at first.
pub cell-filled :
    {V : Type 0} (v : V) (rows columns : List String) (r c : String)
    → cell (filled v rows columns) r c ≡ (
        if any (λ row. str_eq row r) rows && any (λ column. str_eq column c) columns
        then some v
        else none)
unfolding filled
cell-filled v rows columns r c =
    ap (in_row c) (
      get-dict str_eq str_eq-IsEquality (λ row. dict str_eq (map (λ column. (column, v)) columns)) r
        rows)
    ∙ (elim (Bool-cases (any (λ row. str_eq row r) rows)) [
      | inl t ↦ rw t (get-dict str_eq str_eq-IsEquality (λ column. v) c columns)
      | inr f ↦ rw f refl
    ])

-- A cell of the grid.
abbrev pub is_there : MigrationMatrix → String → String → Bool
is_there matrix r c =
    any (λ row. str_eq row r) matrix.row_labels
    && any (λ column. str_eq column c) matrix.column_labels

-- How a matrix comes from the grids that the loop has left.
abbrev pub IsTallied : List CustomerMigration → MigrationMatrix → Type 0
IsTallied migrations matrix =
    (tally migrations (filled 0 matrix.row_labels matrix.column_labels)
        (filled [] matrix.row_labels matrix.column_labels)
      ≡ ok (matrix.cells, matrix.cell_migrations))
    × (matrix.row_totals
        ≡ dict str_eq (map (λ row. (row, row_sum (get str_eq row matrix.cells))) matrix.row_labels))
    × (matrix.column_totals
        ≡ dict str_eq (
            map (λ column. (column, column_sum matrix.cells matrix.row_labels column))
              matrix.column_labels))

pub matrix-IsTallied :
    (migrations : List CustomerMigration) (ordinals : Ordinals) (matrix : MigrationMatrix)
    → build_migration_matrix migrations ordinals ≡ ok matrix
    → IsTallied migrations matrix
unfolding build_migration_matrix
matrix-IsTallied migrations ordinals matrix h =
    let (tallied, h1, h2) = bind_ok (tally migrations _ _) _ matrix h in
    subst (IsTallied migrations) (ok_injective h2) (h1, refl, refl)

-- Of a matrix that was built, each cell holds the number of the migrations that belong to it and lists
-- exactly those, in their order, and there is a cell for each row and column and no other.
pub matrix_counts :
    (migrations : List CustomerMigration) (ordinals : Ordinals) (matrix : MigrationMatrix)
    → build_migration_matrix migrations ordinals ≡ ok matrix
    → (r c : String)
    → (cell matrix.cells r c
        ≡ (if is_there matrix r c then some (count_if (is_cell r c) migrations) else none))
      × (cell matrix.cell_migrations r c
          ≡ (if is_there matrix r c then some (keep (is_cell r c) migrations) else none))
matrix_counts migrations ordinals matrix h r c =
    let tallied = (matrix-IsTallied migrations ordinals matrix h).0 in
    let (e, e') = cell-tally migrations _ _ matrix.cells matrix.cell_migrations tallied r c in
    (
      e
          ∙ ap (on_some (λ n. n + count_if (is_cell r c) migrations))
              (cell-filled 0 matrix.row_labels matrix.column_labels r c)
          ∙ on_some_if (is_there matrix r c) (λ n. n + count_if (is_cell r c) migrations) 0 _
              (omega arith),
      e'
          ∙ ap (on_some (λ (ms : List CustomerMigration). ms ++ keep (is_cell r c) migrations))
              (cell-filled [] matrix.row_labels matrix.column_labels r c)
          ∙ on_some_if (is_there matrix r c)
              (λ (ms : List CustomerMigration). ms ++ keep (is_cell r c) migrations) [] _ refl,
    )
