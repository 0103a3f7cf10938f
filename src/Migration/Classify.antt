-- ===== src/Migration/Classify.antt =====
-- The classification of the customers between two runs, and the reads it starts from (web/db/segments.py). Customer ids
-- are UUIDs, whose texts are ordered as their numbers.
use retail_segmentation.Prelude.{
  ℕ, Bool, not, Option, none, some, List, [], ◌∷◌, ◌++◌, map, keep, find_first, ltb, leb, ◌==◌,
  if◌then◌else◌, sort_by, String, str_eq, Result, ok, err, ◌>>=◌,
}
use retail_segmentation.Segmentation.Store.{Db, HistoryRow, Label, Run}
use retail_segmentation.Migration.Dicts.{Dict, dict, get, has, keys_of}

pub data MigrationCategory : Type 0 where
  unchanged moved newly_assigned newly_unassigned absent_from_earlier absent_from_later :
      MigrationCategory

pub data Direction : Type 0 where
  improved declined : Direction

pub record CustomerMigration : Type 0 where
  pub customer_id : ℕ
  pub label_before : Option String
  pub label_after : Option String
  pub category : MigrationCategory
  pub direction : Option Direction

-- `UnknownRun`, the ValueError of a label outside the vocabulary, and the KeyError of a cell.
pub data MigrationError : Type 0 where
  unknown_run : (run_id : ℕ) → MigrationError
  not_in_vocabulary : (label : String) → MigrationError
  no_cell : (row column : String) → MigrationError

-- A run's labels by customer, and the ordinal positions by label.
abbrev pub Labels : Type 0
Labels = Dict ℕ (Option String)

abbrev pub Ordinals : Type 0
Ordinals = Dict String ℕ

abbrev pub found_rank : String → Option ℕ → Result MigrationError ℕ
found_rank label none = err (not_in_vocabulary label)
found_rank label (some n) = ok n

-- `ordinals[label]`
unfoldable pub rank_of : Ordinals → String → Result MigrationError ℕ
rank_of ordinals label = found_rank label (get str_eq label ordinals)

abbrev pub direction_of : ℕ → ℕ → Direction
direction_of before after = if ltb after before then improved else declined

-- Both runs gave a label.
unfoldable pub moved_between :
    String → String → Ordinals → Result MigrationError (MigrationCategory × Option Direction)
unfolding rank_of
moved_between before after ordinals = if str_eq before after then ok (unchanged, none) else do
  before_rank ← rank_of ordinals before
  after_rank ← rank_of ordinals after
  ok (moved, some (direction_of before_rank after_rank))

-- Both runs scored the customer.
unfoldable pub classify_labels :
    Option String
    → Option String
    → Ordinals
    → Result MigrationError (MigrationCategory × Option Direction)
unfolding moved_between
classify_labels none none ordinals = ok (unchanged, none)
classify_labels none (some after) ordinals = ok (newly_assigned, none)
classify_labels (some before) none ordinals = ok (newly_unassigned, none)
classify_labels (some before) (some after) ordinals = moved_between before after ordinals

unfoldable pub classify :
    Option String
    → Option String
    → Bool
    → Bool
    → Ordinals
    → Result MigrationError (MigrationCategory × Option Direction)
unfolding classify_labels
classify label_before label_after in_run_a in_run_b ordinals =
    if not in_run_a
    then ok (absent_from_earlier, none)
    else if not in_run_b
    then ok (absent_from_later, none)
    else classify_labels label_before label_after ordinals

-- `labels.get(customer_id)`: an unassigned customer and an absent one read alike.
abbrev pub flatten : Option (Option String) → Option String
flatten none = none
flatten (some label) = label

abbrev pub label_for : Labels → ℕ → Option String
label_for labels customer = flatten (get ◌==◌ customer labels)

abbrev pub in_run : Labels → ℕ → Bool
in_run labels customer = has ◌==◌ customer labels

-- The migration of one customer.
unfoldable pub migration_of :
    Labels → Labels → Ordinals → ℕ → Result MigrationError CustomerMigration
unfolding classify
migration_of labels_a labels_b ordinals customer = do
  found ←
      classify (label_for labels_a customer) (label_for labels_b customer)
        (in_run labels_a customer) (in_run labels_b customer) ordinals
  ok (record {
    customer_id = customer;
    label_before = label_for labels_a customer;
    label_after = label_for labels_b customer;
    category = found.0;
    direction = found.1;
  })

-- `[f(x) for x in xs]`, where `f` may raise.
unfoldable pub try_map :
    {A B : Type 0} → (A → Result MigrationError B) → List A → Result MigrationError (List B)
try_map f [] = ok []
try_map f (x ∷ xs) = do y ← f x; ys ← try_map f xs; ok (y ∷ ys)

-- `set(labels_a) | set(labels_b)`
abbrev pub all_customers : Labels → Labels → List ℕ
all_customers labels_a labels_b =
    keys_of labels_a ++ keep (λ c. not (in_run labels_a c)) (keys_of labels_b)

unfoldable pub classify_migration :
    Labels → Labels → Ordinals → Result MigrationError (List CustomerMigration)
unfolding migration_of try_map sort_by
classify_migration labels_a labels_b ordinals =
    try_map (migration_of labels_a labels_b ordinals)
      (sort_by ltb (all_customers labels_a labels_b))

abbrev pub run_at_of : Option Run → Option ℕ
run_at_of none = none
run_at_of (some r) = some r.run_at

unfoldable pub get_run_at : Db → ℕ → Option ℕ
get_run_at db run_id = run_at_of (find_first (λ (r : Run). r.run_id == run_id) db.runs)

unfoldable pub list_run_labels : Db → ℕ → Labels
list_run_labels db run_id = dict ◌==◌ (
    map (λ (h : HistoryRow). (h.customer_id, h.label_code))
      (keep (λ (h : HistoryRow). h.run_id == run_id) db.history))

unfoldable pub get_label_ordinals : Db → Ordinals
get_label_ordinals db =
    dict str_eq (map (λ (l : Label). (l.label_code, l.ordinal_position)) db.labels)

abbrev pub found_run : ℕ → Option ℕ → Result MigrationError ℕ
found_run run_id none = err (unknown_run run_id)
found_run run_id (some t) = ok t

unfoldable pub order_runs : Db → ℕ → ℕ → Result MigrationError (ℕ × ℕ)
unfolding get_run_at
order_runs db run_id_a run_id_b = do
  run_at_a ← found_run run_id_a (get_run_at db run_id_a)
  run_at_b ← found_run run_id_b (get_run_at db run_id_b)
  ok (if leb run_at_a run_at_b then (run_id_a, run_id_b) else (run_id_b, run_id_a))

unfoldable pub compute_migration : Db → ℕ → ℕ → Result MigrationError (List CustomerMigration)
unfolding order_runs list_run_labels get_label_ordinals classify_migration
compute_migration db run_id_a run_id_b = do
  pair ← order_runs db run_id_a run_id_b
  classify_migration (list_run_labels db pair.0) (list_run_labels db pair.1) (get_label_ordinals db)
