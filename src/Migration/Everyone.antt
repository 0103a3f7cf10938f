-- ===== src/Migration/Everyone.antt =====
-- The whole comparison of two runs: `classify_migration`, and `build_migration_matrix` of what it returns.
use mathlib.Core.Path.{subst}
use retail_segmentation.Prelude.{
  ℕ, ◌≡◌, refl, sym, ap, ◌∙◌, true, List, [], ◌∷◌, ◌++◌, map, any, ltb, All, All-map, All-map_inv,
  sort_by, String, str_eq, ok,
}
use retail_segmentation.Migration.Classify.{
  CustomerMigration, Labels, Ordinals, all_customers, classify, classify_migration, in_run,
  label_for, migration_of,
}
use retail_segmentation.Migration.Matrix.{
  MigrationMatrix, build_migration_matrix, filled, migration_cell_labels, not_in_earlier,
  not_in_later, ordered_labels, tally, unassigned_name,
}
use retail_segmentation.Migration.Cells.{cell, cell-filled}
use retail_segmentation.Migration.Totals.{is_some}
use retail_segmentation.Migration.Total.{
  IsKnown, classify_known, column_for, migration_of_cells, row_for, tally_total,
}
use retail_segmentation.Migration.Vocabulary.{
  column_for_there, row_for_there, then_ok, try_map_ok, try_map_total,
}

filled_there :
    {V : Type 0} (v : V) (rows columns : List String) (r c : String)
    → any (λ x. str_eq x r) rows ≡ true
    → any (λ x. str_eq x c) columns ≡ true
    → is_some (cell (filled v rows columns) r c) ≡ true
filled_there v rows columns r c h k = ap is_some (cell-filled v rows columns r c) ∙ (rw (h, k) refl)

All-all {ℓ} : {A : Type ℓ} (P : A → Type 0) → ((a : A) → P a) → (xs : List A) → All P xs
All-all P h [] = tt
All-all P h (x ∷ xs) = (h x, All-all P h xs)

-- A comparison that returns, and its matrix with it.
abbrev pub IsCompared : Labels → Labels → Ordinals → Type 0
IsCompared labels_a labels_b ordinals =
    (migrations : List CustomerMigration) × (matrix : MigrationMatrix) × (classify_migration
        labels_a labels_b ordinals
      ≡ ok migrations)
    × (map (λ (m : CustomerMigration). m.customer_id) migrations
        ≡ map (λ c. c) (sort_by ltb (all_customers labels_a labels_b)))
    × (build_migration_matrix migrations ordinals ≡ ok matrix)

pub cells_of :
    (labels_a labels_b : Labels) (ordinals : Ordinals) (migrations : List CustomerMigration)
    → classify_migration labels_a labels_b ordinals ≡ ok migrations
    → map migration_cell_labels migrations
      ≡ map
          (λ c. (row_for labels_a c, column_for labels_a labels_b c))
          (sort_by ltb (all_customers labels_a labels_b))
unfolding classify_migration
cells_of labels_a labels_b ordinals migrations h =
    try_map_ok (migration_of labels_a labels_b ordinals) migration_cell_labels _
      (λ c m e. (migration_of_cells labels_a labels_b ordinals c m e).1) _ migrations h

module _ (labels_a labels_b : Labels) (ordinals : Ordinals)
    (known_a : (c : ℕ) → IsKnown ordinals (label_for labels_a c))
    (known_b : (c : ℕ) → IsKnown ordinals (label_for labels_b c)) where
  have_cells :
      (migrations : List CustomerMigration)
      → classify_migration labels_a labels_b ordinals ≡ ok migrations
      → {V : Type 0} (v : V)
      → All
          (λ m.
            is_some (
              cell
                (filled v
                  (ordered_labels ordinals ++ unassigned_name ∷ not_in_earlier ∷ [])
                  (ordered_labels ordinals ++ unassigned_name ∷ not_in_later ∷ []))
                (migration_cell_labels m).0
                (migration_cell_labels m).1)
            ≡ true)
          migrations
  have_cells migrations h v =
      let P : String × String → Type 0 = λ q.
        is_some (
          cell
            (filled v (ordered_labels ordinals ++ unassigned_name ∷ not_in_earlier ∷ [])
              (ordered_labels ordinals ++ unassigned_name ∷ not_in_later ∷ []))
            q.0 q.1)
        ≡ true in
      let cs = sort_by ltb (all_customers labels_a labels_b) in
      All-map_inv P migration_cell_labels migrations (
        subst (All P) (sym (cells_of labels_a labels_b ordinals migrations h)) (
          All-map P (λ c. (row_for labels_a c, column_for labels_a labels_b c)) cs
            (All-all _
              (λ c.
                filled_there v _ _ (row_for labels_a c) (column_for labels_a labels_b c)
                  (row_for_there labels_a ordinals c (known_a c))
                  (column_for_there labels_a labels_b ordinals c (known_b c)))
              cs)))

  migration_of_total :
      (c : ℕ) → (m : CustomerMigration) × (migration_of labels_a labels_b ordinals c ≡ ok m)
  unfolding migration_of
  migration_of_total c =
      let (r, classified) =
        classify_known (label_for labels_a c) (label_for labels_b c) (in_run labels_a c)
          (in_run labels_b c) ordinals (known_a c) (known_b c) in
      then_ok
        (classify (label_for labels_a c) (label_for labels_b c) (in_run labels_a c)
          (in_run labels_b c) ordinals)
        _ r classified (_, refl)

-- When every label of the two runs is in the vocabulary, the classification returns one migration for each
-- customer of either run, in the order of their ids, and the matrix of these migrations is built.
pub classify_migration-IsCompared :
    (labels_a labels_b : Labels) (ordinals : Ordinals)
    → ((c : ℕ) → IsKnown ordinals (label_for labels_a c))
    → ((c : ℕ) → IsKnown ordinals (label_for labels_b c))
    → IsCompared labels_a labels_b ordinals
unfolding classify_migration build_migration_matrix
classify_migration-IsCompared labels_a labels_b ordinals known_a known_b =
    let cs = sort_by ltb (all_customers labels_a labels_b) in
    let (migrations, h) =
      try_map_total (migration_of labels_a labels_b ordinals)
        (migration_of_total labels_a labels_b ordinals known_a known_b) cs in
    let (r, tallied) =
      tally_total migrations _ _
        (have_cells labels_a labels_b ordinals known_a known_b migrations h 0)
        (have_cells labels_a labels_b ordinals known_a known_b migrations h []) in
    let (matrix, built) = then_ok (tally migrations _ _) _ r tallied (_, refl) in
    (
      migrations,
      matrix,
      h,
      try_map_ok (migration_of labels_a labels_b ordinals)
          (λ (m : CustomerMigration). m.customer_id) (λ c. c)
          (λ c m e. (migration_of_cells labels_a labels_b ordinals c m e).0) cs migrations h,
      built,
    )
