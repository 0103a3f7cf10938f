-- ===== src/Migration/Total.antt =====
-- Every customer is classified and has a cell, once the labels of both runs are in the vocabulary.
use retail_segmentation.Prelude.{
  ℕ, ◌+◌, ◌≡◌, refl, sym, ap, ◌∙◌, ◌⊎◌, Bool, true, false, not, ◌&&◌, Option, none, some, List, [],
  ◌∷◌, ◌++◌, All, All-mono, if◌then◌else◌, Bool-cases, Option-cases, inl, inr, String, str_eq, ok,
  bind_ok, ok_injective, true_≢_false,
}
use retail_segmentation.Migration.Dicts.{get, put}
use retail_segmentation.Migration.Classify.{
  CustomerMigration, Direction, Labels, MigrationCategory, Ordinals, unchanged, moved, classify,
  classify_labels, direction_of, in_run, label_for, migration_of, moved_between, rank_of,
}
use retail_segmentation.Migration.Matrix.{
  Grid, change_cell, label_or_unassigned, migration_cell_labels, migration_column, migration_row,
  not_in_earlier, not_in_later, tally,
}
use retail_segmentation.Migration.Cells.{in_row, cell, cell-change_cell}
use retail_segmentation.Migration.Totals.{is_some, is_some-on_some}

-- What a label is when the vocabulary has it, or there is none.
abbrev pub IsKnown : Ordinals → Option String → Type 0
IsKnown ordinals none = Unit
IsKnown ordinals (some label) = is_some (get str_eq label ordinals) ≡ true

is_some_not_none : {V : Type 0} (o : Option V) → o ≡ none → is_some o ≡ true → ⊥
is_some_not_none o e h = true_≢_false (sym h ∙ ap is_some e)

rank_of_known :
    (ordinals : Ordinals) (label : String)
    → is_some (get str_eq label ordinals) ≡ true
    → (n : ℕ) × (rank_of ordinals label ≡ ok n)
unfolding rank_of
rank_of_known ordinals label h = elim (Option-cases (get str_eq label ordinals)) [
  | inl gone ↦ absurd (is_some_not_none (get str_eq label ordinals) gone h)
  | inr (n, found) ↦ (n, rw found refl)
]

moved_between_known :
    (before after : String) (ordinals : Ordinals)
    → IsKnown ordinals (some before)
    → IsKnown ordinals (some after)
    → (r : MigrationCategory × Option Direction) × (moved_between before after ordinals ≡ ok r)
unfolding moved_between
moved_between_known before after ordinals h k =
    let (n, ranked) = rank_of_known ordinals before h in
    let (p, ranked') = rank_of_known ordinals after k in
    elim (Bool-cases (str_eq before after)) [
      | inl t ↦ ((unchanged, none), rw t refl)
      | inr f ↦ ((moved, some (direction_of n p)), rw (f, ranked, ranked') refl)
    ]

classify_labels_known :
    (before after : Option String) (ordinals : Ordinals)
    → IsKnown ordinals before
    → IsKnown ordinals after
    → (r : MigrationCategory × Option Direction) × (classify_labels before after ordinals ≡ ok r)
unfolding classify_labels
classify_labels_known none none ordinals h k = (_, refl)
classify_labels_known none (some after) ordinals h k = (_, refl)
classify_labels_known (some before) none ordinals h k = (_, refl)
classify_labels_known (some before) (some after) ordinals h k =
    moved_between_known before after ordinals h k

pub classify_known :
    (before after : Option String) (in_a in_b : Bool) (ordinals : Ordinals)
    → IsKnown ordinals before
    → IsKnown ordinals after
    → (r : MigrationCategory × Option Direction) × (classify before after in_a in_b ordinals ≡ ok r)
unfolding classify
classify_known before after false in_b ordinals h k = (_, refl)
classify_known before after true false ordinals h k = (_, refl)
classify_known before after true true ordinals h k = classify_labels_known before after ordinals h k

-- The row and the column, from the labels and the presence in the runs.
abbrev pub row_for : Labels → ℕ → String
row_for labels_a c =
    if in_run labels_a c then label_or_unassigned (label_for labels_a c) else not_in_earlier

abbrev pub column_for : Labels → Labels → ℕ → String
column_for labels_a labels_b c =
    if in_run labels_a c && not (in_run labels_b c)
    then not_in_later
    else label_or_unassigned (label_for labels_b c)

moved_between_present :
    (before after : String) (ordinals : Ordinals) (r : MigrationCategory × Option Direction)
    → moved_between before after ordinals ≡ ok r
    → (r.0 ≡ unchanged) ⊎ (r.0 ≡ moved)
unfolding moved_between
moved_between_present before after ordinals r h = elim (Bool-cases (str_eq before after)) [
  | inl t ↦
      inl (ap (λ (q : MigrationCategory × Option Direction). q.0) (sym (ok_injective (rw t at h))))
  | inr f ↦
      let (n, ranked, h1) = bind_ok (rank_of ordinals before) _ r (rw f at h) in
      let (p, ranked', h2) = bind_ok (rank_of ordinals after) _ r h1 in
      inr (ap (λ (q : MigrationCategory × Option Direction). q.0) (sym (ok_injective h2)))
]

classify_cells :
    (before after : Option String) (in_a in_b : Bool) (ordinals : Ordinals)
    (r : MigrationCategory × Option Direction)
    → classify before after in_a in_b ordinals ≡ ok r
    → (migration_row r.0 before ≡ (if in_a then label_or_unassigned before else not_in_earlier))
      × (migration_column r.0 after
          ≡ (if in_a && not in_b then not_in_later else label_or_unassigned after))
unfolding classify migration_row migration_column classify_labels
classify_cells before after false in_b ordinals r h = rw (← ok_injective h) (refl, refl)
classify_cells before after true false ordinals r h = rw (← ok_injective h) (refl, refl)
classify_cells none none true true ordinals r h = rw (← ok_injective h) (refl, refl)
classify_cells none (some after) true true ordinals r h = rw (← ok_injective h) (refl, refl)
classify_cells (some before) none true true ordinals r h = rw (← ok_injective h) (refl, refl)
classify_cells (some before) (some after) true true ordinals r h =
    elim (moved_between_present before after ordinals r h) [
      | inl e ↦ rw e (refl, refl)
      | inr e ↦ rw e (refl, refl)
    ]

both : {A B : Type 0} {a c : A} {b d : B} → a ≡ c → b ≡ d → ◌≡◌ {A = A × B} (a, b) (c, d)
both p q = cc

pub migration_of_cells :
    (labels_a labels_b : Labels) (ordinals : Ordinals) (c : ℕ) (m : CustomerMigration)
    → migration_of labels_a labels_b ordinals c ≡ ok m
    → (m.customer_id ≡ c)
      × (migration_cell_labels m ≡ (row_for labels_a c, column_for labels_a labels_b c))
unfolding migration_of migration_cell_labels
migration_of_cells labels_a labels_b ordinals c m h =
    let (found, classified, h1) =
      bind_ok
        (classify (label_for labels_a c) (label_for labels_b c) (in_run labels_a c)
          (in_run labels_b c) ordinals)
        _ m h in
    let (row, column) =
      classify_cells (label_for labels_a c) (label_for labels_b c) (in_run labels_a c)
        (in_run labels_b c) ordinals found classified in
    rw (← ok_injective h1) (refl, both row column)

change_cell_total :
    {V : Type 0} (row column : String) (f : V → V) (g : Grid V)
    → is_some (cell g row column) ≡ true
    → (after : Grid V) × (change_cell row column f g ≡ ok after)
unfolding change_cell
change_cell_total row column f g h = elim (Option-cases (get str_eq row g)) [
  | inl gone ↦ absurd (is_some_not_none (cell g row column) (ap (in_row column) gone) h)
  | inr (columns, there) ↦ elim (Option-cases (get str_eq column columns)) [
    | inl gone ↦ absurd (is_some_not_none (cell g row column) (ap (in_row column) there ∙ gone) h)
    | inr (v, found) ↦ (put str_eq row (put str_eq column (f v) columns) g, rw (there, found) refl)
  ]
]

still_there :
    {V : Type 0} (row column : String) (f : V → V) (g after : Grid V)
    → change_cell row column f g ≡ ok after
    → (migrations : List CustomerMigration)
    → All
        (λ m. is_some (cell g (migration_cell_labels m).0 (migration_cell_labels m).1) ≡ true)
        migrations
    → All
        (λ m. is_some (cell after (migration_cell_labels m).0 (migration_cell_labels m).1) ≡ true)
        migrations
still_there row column f g after h migrations there =
    All-mono (λ m. is_some (cell g (migration_cell_labels m).0 (migration_cell_labels m).1) ≡ true)
      (λ m. is_some (cell after (migration_cell_labels m).0 (migration_cell_labels m).1) ≡ true)
      (λ m q.
        ap is_some (
          cell-change_cell row column f g after h (migration_cell_labels m).0
            (migration_cell_labels m).1)
        ∙ is_some-on_some _ (cell g (migration_cell_labels m).0 (migration_cell_labels m).1)
        ∙ q)
      migrations there

pub tally_total :
    (migrations : List CustomerMigration) (cells : Grid ℕ) (members : Grid (List CustomerMigration))
    → All
        (λ m. is_some (cell cells (migration_cell_labels m).0 (migration_cell_labels m).1) ≡ true)
        migrations
    → All
        (λ m. is_some (cell members (migration_cell_labels m).0 (migration_cell_labels m).1) ≡ true)
        migrations
    → (r : Grid ℕ × Grid (List CustomerMigration)) × (tally migrations cells members ≡ ok r)
unfolding tally
tally_total [] cells members h k = (_, refl)
tally_total (m ∷ migrations) cells members h k =
    let (row, column) = migration_cell_labels m in
    let (g, changed) = change_cell_total row column (λ n. n + 1) cells h.0 in
    let (g', changed') = change_cell_total row column (λ ms. ms ++ m ∷ []) members k.0 in
    let (r, rest) =
      tally_total migrations g g'
        (still_there row column (λ n. n + 1) cells g changed migrations h.1)
        (still_there row column (λ ms. ms ++ m ∷ []) members g' changed' migrations k.1) in
    (r, rw (changed, changed') rest)
