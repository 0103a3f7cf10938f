-- ===== src/Migration/Totals.antt =====
-- The totals of the matrix: `row_totals` and `column_totals` of `build_migration_matrix`.
use retail_segmentation.Prelude.{
  ℕ, zero, suc, ◌+◌, ◌≤◌, ◌≡◌, refl, sym, ap, ◌∙◌, Bool, true, false, ◌&&◌, Option, none, some,
  List, [], ◌∷◌, ◌++◌, map, any, count_if, All, All-mono, if◌then◌else◌, arith, Bool-cases, inl,
  inr, String, str_eq, ok, bind_ok, ok_injective, true_≢_false,
}
use retail_segmentation.Migration.Dicts.{
  Dict, dict, get, put, put_all, values_of, get-put, get-dict, str_eq-IsEquality,
}
use retail_segmentation.Migration.Classify.{CustomerMigration, Ordinals}
use retail_segmentation.Migration.Matrix.{
  Grid, MigrationMatrix, build_migration_matrix, change_cell, filled, in_column,
  migration_cell_labels, or_zero, row_sum, sum, tally,
}
use retail_segmentation.Migration.Cells.{
  cell, cell-change_cell, cell-filled, change_cell_ok, matrix-IsTallied, on_some,
}

abbrev pub is_row : String → CustomerMigration → Bool
is_row row m = str_eq (migration_cell_labels m).0 row

abbrev pub is_column : String → CustomerMigration → Bool
is_column column m = str_eq (migration_cell_labels m).1 column

sum-put :
    (k : String) (v : ℕ) (d : Dict String ℕ)
    → get str_eq k d ≡ some v
    → sum (values_of (put str_eq k (v + 1) d)) ≡ suc (sum (values_of d))
sum-put k v [] h = cc
sum-put k v ((j, w) ∷ d) h = ground (arith, sum-put k v d)

sum-put_zero :
    (k : String) (d : Dict String ℕ)
    → sum (values_of d) ≡ 0
    → sum (values_of (put str_eq k 0 d)) ≡ 0
sum-put_zero k [] h = refl
sum-put_zero k ((j, w) ∷ d) h = ground (arith, sum-put_zero k d)

sum-zeros :
    (ks : List String) (d : Dict String ℕ)
    → sum (values_of d) ≡ 0
    → sum (values_of (put_all str_eq (map (λ k. (k, zero)) ks) d)) ≡ 0
sum-zeros [] d h = h
sum-zeros (k ∷ ks) d h = sum-zeros ks (put str_eq k 0 d) (sum-put_zero k d h)

pub row_sum-filled :
    (rows columns : List String) (r : String) → row_sum (get str_eq r (filled 0 rows columns)) ≡ 0
unfolding filled
row_sum-filled rows columns r =
    ap row_sum (
      get-dict str_eq str_eq-IsEquality
        (λ row. dict str_eq (map (λ column. (column, zero)) columns)) r rows)
    ∙ (elim (Bool-cases (any (λ row. str_eq row r) rows)) [
      | inl t ↦ rw t (sum-zeros columns [] refl)
      | inr f ↦ rw f refl
    ])

row_sum-change_cell :
    (row column r : String) (g after : Grid ℕ)
    → change_cell row column (λ n. n + 1) g ≡ ok after
    → row_sum (get str_eq r after)
      ≡ (if str_eq row r then suc (row_sum (get str_eq r g)) else row_sum (get str_eq r g))
row_sum-change_cell row column r g after h =
    let (columns, v, there, found, e) = change_cell_ok row column (λ n. n + 1) g after h in
    let written : Dict String ℕ = put str_eq column (v + 1) columns in
    ap (λ (x : Grid ℕ). row_sum (get str_eq r x)) e
    ∙ ap row_sum (get-put str_eq str_eq-IsEquality r row written g)
    ∙ (elim (Bool-cases (str_eq row r)) [
      | inl t ↦
          let its : get str_eq r g ≡ some columns =
            sym (ap (λ x. get str_eq x g) (str_eq-IsEquality.same row r t)) ∙ there in
          rw (t, its) (sum-put column v columns found)
      | inr f ↦ rw f refl
    ])

pub row_sum-tally :
    (migrations : List CustomerMigration) (cells cells' : Grid ℕ)
    (members members' : Grid (List CustomerMigration)) (r : String)
    → tally migrations cells members ≡ ok (cells', members')
    → row_sum (get str_eq r cells') ≡ row_sum (get str_eq r cells) + count_if (is_row r) migrations
unfolding tally
row_sum-tally [] cells cells' members members' r h =
    let e = ok_injective h in
    omega (arith, ap (λ (q : Grid ℕ × Grid (List CustomerMigration)). row_sum (get str_eq r q.0)) e)
row_sum-tally (m ∷ migrations) cells cells' members members' r h =
    let (row, column) = migration_cell_labels m in
    let (g, h1, k) = bind_ok (change_cell row column (λ n. n + 1) cells) _ (cells', members') h in
    let (g', h2, k') =
      bind_ok (change_cell row column (λ ms. ms ++ m ∷ []) members) _ (cells', members') k in
    ground (
      arith,
      row_sum-tally migrations g cells' g' members' r k',
      row_sum-change_cell row column r cells g h1,
    )

abbrev pub is_some : {V : Type 0} → Option V → Bool
is_some none = false
is_some (some v) = true

pub is_some-on_some : {V W : Type 0} (f : V → W) (o : Option V) → is_some (on_some f o) ≡ is_some o
is_some-on_some f none = refl
is_some-on_some f (some v) = refl

-- Every migration of a tally has its cell.
tally-there :
    (migrations : List CustomerMigration) (cells cells' : Grid ℕ)
    (members members' : Grid (List CustomerMigration))
    → tally migrations cells members ≡ ok (cells', members')
    → All
        (λ m. is_some (cell cells (migration_cell_labels m).0 (migration_cell_labels m).1) ≡ true)
        migrations
unfolding tally
tally-there [] cells cells' members members' h = tt
tally-there (m ∷ migrations) cells cells' members members' h =
    let (row, column) = migration_cell_labels m in
    let (g, h1, k) = bind_ok (change_cell row column (λ n. n + 1) cells) _ (cells', members') h in
    let (g', h2, k') =
      bind_ok (change_cell row column (λ ms. ms ++ m ∷ []) members) _ (cells', members') k in
    let (columns, v, there, found, e) = change_cell_ok row column (λ n. n + 1) cells g h1 in
    (
      rw (there, found) refl,
      All-mono
          (λ n. is_some (cell g (migration_cell_labels n).0 (migration_cell_labels n).1) ≡ true)
          (λ n. is_some (cell cells (migration_cell_labels n).0 (migration_cell_labels n).1) ≡ true)
          (λ n q.
            sym (
              ap is_some (
                cell-change_cell row column (λ n. n + 1) cells g h1 (migration_cell_labels n).0
                  (migration_cell_labels n).1)
              ∙ is_some-on_some _
                  (cell cells (migration_cell_labels n).0 (migration_cell_labels n).1))
            ∙ q)
          migrations (tally-there migrations g cells' g' members' k'),
    )

-- One more element under each of the rows' counts.
sum-one_more :
    {A : Type 0} (p : String → A → Bool) (x : A) (xs : List A) (rows : List String)
    → sum (map (λ r. count_if (p r) (x ∷ xs)) rows)
      ≡ sum (map (λ r. count_if (p r) xs) rows) + count_if (λ r. p r x) rows
sum-one_more p x xs [] = omega arith
sum-one_more p x xs (r ∷ rows) = ground (arith, sum-one_more p x xs rows)

sum-no_elements :
    {A : Type 0} (p : String → A → Bool) (rows : List String)
    → sum (map (λ r. count_if (p r) []) rows) ≡ 0
sum-no_elements p [] = refl
sum-no_elements p (r ∷ rows) = omega (arith, sum-no_elements p rows)

-- Counted by rows or at once: each element that counts stands in one row.
pub sum-counts :
    {A : Type 0} (p : String → A → Bool) (q : A → Bool) (rows : List String) (xs : List A)
    → All (λ x. count_if (λ r. p r x) rows ≡ (if q x then 1 else 0)) xs
    → sum (map (λ r. count_if (p r) xs) rows) ≡ count_if q xs
sum-counts p q rows [] h = sum-no_elements p rows
sum-counts p q rows (x ∷ xs) h =
    let more = sum-one_more p x xs rows in
    let ih = sum-counts p q rows xs h.1 in
    let here = h.0 in
    elim (Bool-cases (q x)) [
      | inl t ↦ rw t (omega (arith, more, ih, (rw t at here)))
      | inr f ↦ rw f (omega (arith, more, ih, (rw f at here)))
    ]

-- A label that the rows hold, and hold at most once.
count-any :
    (l : String) (rows : List String)
    → any (λ row. str_eq row l) rows ≡ true
    → 1 ≤ count_if (λ row. str_eq l row) rows
count-any l [] h = cc
count-any l (row ∷ rows) h = elim (Bool-cases (str_eq row l)) [
  | inl t ↦ rw (sym (str_eq-IsEquality.same row l t), str_eq-IsEquality.itself row) (omega arith)
  | inr f ↦ ground (arith, count-any l rows, f)
]

pub first_of : (a b : Bool) → is_some {V = ℕ} (if a && b then some 0 else none) ≡ true → a ≡ true
first_of true b h = refl
first_of false b h = absurd (true_≢_false (sym h))

abbrev pub NoLabelTwice : List String → Type 0
NoLabelTwice rows = (l : String) → count_if (λ row. str_eq l row) rows ≤ 1

pub in_one_row :
    (migrations : List CustomerMigration) (ordinals : Ordinals) (matrix : MigrationMatrix)
    → build_migration_matrix migrations ordinals ≡ ok matrix
    → NoLabelTwice matrix.row_labels
    → All (λ m. count_if (λ r. is_row r m) matrix.row_labels ≡ 1) migrations
in_one_row migrations ordinals matrix h once =
    All-mono _ (λ m. count_if (λ r. is_row r m) matrix.row_labels ≡ 1)
      (λ m there.
        let (row, column) = migration_cell_labels m in
        omega (
          arith,
          once row,
          count-any row matrix.row_labels (
              first_of _ _ (
                sym (ap is_some (cell-filled 0 matrix.row_labels matrix.column_labels row column))
                ∙ there)),
        ))
      migrations
      (tally-there migrations _ matrix.cells _ matrix.cell_migrations
        (matrix-IsTallied migrations ordinals matrix h).0)

pub in_column-cell :
    (c : String) (o : Option (Dict String ℕ)) (r : String) (g : Grid ℕ)
    → get str_eq r g ≡ o
    → in_column c o ≡ or_zero (cell g r c)
in_column-cell c none r g h = rw h refl
in_column-cell c (some d) r g h = rw h refl
