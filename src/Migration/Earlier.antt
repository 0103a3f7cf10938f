-- ===== src/Migration/Earlier.antt =====
-- The rows of the matrix against the earlier run's own labels.
use retail_segmentation.Prelude.{
  ℕ, ◌≡◌, ◌≢◌, refl, sym, ap, ◌∙◌, Bool, true, false, not, Option, none, some, List, [], ◌∷◌, ◌++◌,
  map, any, keep, count_if, ltb, ◌==◌, All, All-mono, All-both, All-kept, Pairwise, sort_by,
  insert_by, if◌then◌else◌, arith, Bool-cases, inl, inr, String, str_eq, ok, true_≢_false,
}
use retail_segmentation.Segmentation.Store.{Db, HistoryRow}
use retail_segmentation.Migration.Dicts.{get, put, put_all, has, keys_of, str_eq-IsEquality}
use retail_segmentation.Migration.Classify.{
  CustomerMigration, Labels, Ordinals, all_customers, classify_migration, get_label_ordinals,
  in_run, list_run_labels,
}
use retail_segmentation.Migration.Matrix.{
  MigrationMatrix, build_migration_matrix, label_or_unassigned, migration_cell_labels,
  not_in_earlier,
}
use retail_segmentation.Migration.Totals.{is_row}
use retail_segmentation.Migration.Total.{row_for, column_for}
use retail_segmentation.Migration.Everyone.{cells_of}
use retail_segmentation.Migration.Reconcile.{row_total}
use retail_segmentation.Migration.Order.{between}

count_if-map :
    {A B : Type 0} (p : B → Bool) (f : A → B) (xs : List A)
    → count_if p (map f xs) ≡ count_if (λ x. p (f x)) xs
count_if-map p f [] = refl
count_if-map p f (x ∷ xs) = ground (arith, count_if-map p f xs)

count_if-insert_by :
    (p : ℕ → Bool) (x : ℕ) (xs : List ℕ) → count_if p (insert_by ltb x xs) ≡ count_if p (x ∷ xs)
count_if-insert_by p x [] = refl
count_if-insert_by p x (y ∷ xs) = ground (arith, count_if-insert_by p x xs)

count_if-sort_by : (p : ℕ → Bool) (xs : List ℕ) → count_if p (sort_by ltb xs) ≡ count_if p xs
unfolding sort_by
count_if-sort_by p [] = refl
count_if-sort_by p (x ∷ xs) =
    ground (arith, count_if-insert_by p x (sort_by ltb xs), count_if-sort_by p xs)

count_if-append_none :
    (p : ℕ → Bool) (xs ys : List ℕ)
    → All (λ y. p y ≡ false) ys
    → count_if p (xs ++ ys) ≡ count_if p xs
count_if-append_none p [] [] h = refl
count_if-append_none p [] (y ∷ ys) h = ground (arith, h.0, count_if-append_none p [] ys h.1)
count_if-append_none p (x ∷ xs) ys h = ground (arith, count_if-append_none p xs ys h)

count_if-same :
    {A B : Type 0} (f : A → B) (p : B → Bool) (q : A → Bool) (xs : List A)
    → All (λ x. p (f x) ≡ q x) xs
    → count_if p (map f xs) ≡ count_if q xs
count_if-same f p q [] h = refl
count_if-same f p q (x ∷ xs) h = ground (arith, h.0, count_if-same f p q xs h.1)

-- No key twice.
abbrev KeysDiffer : Labels → Type 0
KeysDiffer d = Pairwise (λ (a b : ℕ × Option String). (a.0 == b.0) ≡ false) d

All-put :
    (j k : ℕ) (v : Option String) (d : Labels)
    → (j == k) ≡ false
    → All (λ (e : ℕ × Option String). (j == e.0) ≡ false) d
    → All (λ (e : ℕ × Option String). (j == e.0) ≡ false) (put ◌==◌ k v d)
All-put j k v [] h all = (h, tt)
All-put j k v ((i, w) ∷ d) h all = elim (Bool-cases (i == k)) [
  | inl t ↦ rw t (all.0, all.1)
  | inr f ↦ rw f (all.0, All-put j k v d h all.1)
]

put-KeysDiffer :
    (k : ℕ) (v : Option String) (d : Labels) → KeysDiffer d → KeysDiffer (put ◌==◌ k v d)
put-KeysDiffer k v [] h = (tt, tt)
put-KeysDiffer k v ((i, w) ∷ d) h = elim (Bool-cases (i == k)) [
  | inl t ↦ rw t (h.0, h.1)
  | inr f ↦ rw f (All-put i k v d f h.0, put-KeysDiffer k v d h.1)
]

put_all-KeysDiffer :
    (pairs : List (ℕ × Option String)) (d : Labels)
    → KeysDiffer d
    → KeysDiffer (put_all ◌==◌ pairs d)
put_all-KeysDiffer [] d h = h
put_all-KeysDiffer ((k, v) ∷ pairs) d h =
    put_all-KeysDiffer pairs (put ◌==◌ k v d) (put-KeysDiffer k v d h)

-- Every entry is what its key finds.
abbrev FindsItself : Labels → Labels → Type 0
FindsItself d entries =
    All (λ (e : ℕ × Option String). (get ◌==◌ e.0 d ≡ some e.1) × (has ◌==◌ e.0 d ≡ true)) entries

KeysDiffer-FindsItself : (d : Labels) → KeysDiffer d → FindsItself d d
KeysDiffer-FindsItself [] h = tt
KeysDiffer-FindsItself ((k, v) ∷ d) h = (
  ((ground arith), ground arith),
  All-mono
      (λ (e : ℕ × Option String).
        ((k == e.0) ≡ false) × ((get ◌==◌ e.0 d ≡ some e.1) × (has ◌==◌ e.0 d ≡ true)))
      (λ (e : ℕ × Option String).
        (get ◌==◌ e.0 ((k, v) ∷ d) ≡ some e.1) × (has ◌==◌ e.0 ((k, v) ∷ d) ≡ true))
      (λ e q. ((rw (q.0) q.1.0), rw (q.0) q.1.1)) d
      (All-both (λ (e : ℕ × Option String). (k == e.0) ≡ false) _ d h.0
        (KeysDiffer-FindsItself d h.1)),
)

row_for-absent :
    (labels_a : Labels) (c : ℕ) (r : String)
    → not (in_run labels_a c) ≡ true
    → str_eq not_in_earlier r ≡ false
    → str_eq (row_for labels_a c) r ≡ false
row_for-absent labels_a c r h other = elim (Bool-cases (in_run labels_a c)) [
  | inl t ↦ absurd (true_≢_false (sym h ∙ ap not t))
  | inr f ↦ rw f other
]

rows-earlier :
    (labels_a labels_b : Labels) (ordinals : Ordinals) (migrations : List CustomerMigration)
    (r : String)
    → classify_migration labels_a labels_b ordinals ≡ ok migrations
    → KeysDiffer labels_a
    → str_eq not_in_earlier r ≡ false
    → count_if (is_row r) migrations
      ≡ count_if (λ (e : ℕ × Option String). str_eq (label_or_unassigned e.1) r) labels_a
rows-earlier labels_a labels_b ordinals migrations r h differ other =
    let cs = all_customers labels_a labels_b in
    let q = λ (x : String × String). str_eq x.0 r in
    let p = λ (c : ℕ). str_eq (row_for labels_a c) r in
    sym (count_if-map q migration_cell_labels migrations)
    ∙ ap (λ (l : List (String × String)). count_if q l)
        (cells_of labels_a labels_b ordinals migrations h)
    ∙ count_if-map q (λ c. (row_for labels_a c, column_for labels_a labels_b c)) (sort_by ltb cs)
    ∙ count_if-sort_by p cs
    ∙ count_if-append_none p (keys_of labels_a) _ (
        All-mono (λ c. not (in_run labels_a c) ≡ true) (λ c. p c ≡ false)
          (λ c a. row_for-absent labels_a c r a other) _
          (All-kept (λ c. not (in_run labels_a c)) (keys_of labels_b)))
    ∙ count_if-same (λ e. e.0) p (λ (e : ℕ × Option String). str_eq (label_or_unassigned e.1) r)
        labels_a
        (All-mono
          (λ (e : ℕ × Option String).
            (get ◌==◌ e.0 labels_a ≡ some e.1) × (has ◌==◌ e.0 labels_a ≡ true))
          _ (λ e own. rw (own.0, own.1) refl) labels_a (KeysDiffer-FindsItself labels_a differ))

-- Of two runs that have been compared and the matrix of the comparison, the total of every row of the matrix
-- but `Not in earlier run` is the number of customers to whom the earlier run gave its label, or no label for
-- `Unassigned`; a label that is no row has no total.
pub earlier_run_reconciles :
    (db : Db) (a b : ℕ) (migrations : List CustomerMigration) (matrix : MigrationMatrix)
    → between db a b ≡ ok migrations
    → build_migration_matrix migrations (get_label_ordinals db) ≡ ok matrix
    → (r : String) → r ≢ not_in_earlier
    → get str_eq r matrix.row_totals ≡ (
        if any (λ row. str_eq row r) matrix.row_labels
        then some (
            count_if
              (λ (e : ℕ × Option String). str_eq (label_or_unassigned e.1) r)
              (list_run_labels db a))
        else none)
unfolding list_run_labels
earlier_run_reconciles db a b migrations matrix compared built r other =
    let no_row : str_eq not_in_earlier r ≡ false = elim (Bool-cases (str_eq not_in_earlier r)) [
      | inl t ↦ absurd (other (sym (str_eq-IsEquality.same not_in_earlier r t)))
      | inr f ↦ f
    ] in
    row_total migrations (get_label_ordinals db) matrix built r
    ∙ ap (λ n. if any (λ row. str_eq row r) matrix.row_labels then some n else none)
        (rows-earlier (list_run_labels db a) (list_run_labels db b) (get_label_ordinals db)
          migrations r compared
          (put_all-KeysDiffer
            (map (λ (h : HistoryRow). (h.customer_id, h.label_code))
              (keep (λ (h : HistoryRow). h.run_id == a) db.history))
            [] tt)
          no_row)
