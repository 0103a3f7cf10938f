-- ===== src/Segmentation/Store.antt =====
-- The tables that a run reads and writes (web/db/segments.py), and the functions there that run SQL
-- over the history, each as what its statement does to the table.
use retail_segmentation.Prelude.{
  ℕ, ◌+◌, ◌*◌, Bool, true, ◌&&◌, ◌||◌, not, Option, none, some, List, [], ◌∷◌, ◌++◌, map, ◌==◌,
  if◌then◌else◌, String, str_eq, any, leb, Result, ok, err,
}
use retail_segmentation.Segmentation.Domain.{
  Assignment, Fields, Json, Items, Error, unique_violation, is_some, observed, seeded,
}
use retail_segmentation.Floats.{is_finite}
use retail_segmentation.Segmentation.Checks.{contains}
use retail_segmentation.Segmentation.Counts.{Prior}

pub record Sale : Type 0 where
  pub customer_id : ℕ
  pub occurred_at : ℕ
  pub total : ℕ
  pub data_origin : String

pub record Rule : Type 0 where
  pub rule_id : ℕ
  pub r_min : ℕ
  pub r_max : ℕ
  pub f_min : ℕ
  pub f_max : ℕ
  pub m_min : ℕ
  pub m_max : ℕ

pub record Segment : Type 0 where
  pub segment_id : ℕ
  pub label_code : String
  pub rule_id : ℕ
  pub valid_from : ℕ
  pub valid_to : Option ℕ

pub record Label : Type 0 where
  pub label_code : String
  pub ordinal_position : ℕ

-- A row of `segmentation_run`.
pub record Run : Type 0 where
  pub run_id : ℕ
  pub method : String
  pub window_days : ℕ
  pub parameters : Fields
  pub customer_count : ℕ
  pub run_at : ℕ
  pub data_origin : String

-- A row of `customer_segment_history`; it is open while `valid_to` is null.
pub record HistoryRow : Type 0 where
  pub customer_id : ℕ
  pub run_id : ℕ
  pub segment_id : Option ℕ
  pub label_code : Option String
  pub last_purchase_at : Option ℕ
  pub frequency : Option ℕ
  pub monetary : Option ℕ
  pub r_score : Option ℕ
  pub f_score : Option ℕ
  pub m_score : Option ℕ
  pub valid_from : ℕ
  pub valid_to : Option ℕ

-- `now` is when the transaction began, `clock` the time once the run's lock is granted, `today` the
-- current date in days; `notices` are the notifications written.
pub record Db : Type 0 where
  pub now : ℕ
  pub clock : ℕ
  pub today : ℕ
  pub customers : List ℕ
  pub sales : List Sale
  pub segments : List Segment
  pub rules : List Rule
  pub labels : List Label
  pub next_run_id : ℕ
  pub runs : List Run
  pub history : List HistoryRow
  pub notices : List ℕ

abbrev pub seconds_per_day : ℕ
seconds_per_day = 86400

-- `occurred_at >= now() - make_interval(days => %s) AND occurred_at <= now()`
abbrev pub in_window : Db → ℕ → Sale → Bool
in_window db days s =
    leb db.now (s.occurred_at + days * seconds_per_day) && leb s.occurred_at db.now

-- The SQL function `fn_segmentation_window_origin`, which `create_run` calls.
unfoldable pub window_origin : Db → ℕ → String
window_origin db days =
    if any (λ s. str_eq s.data_origin seeded && in_window db days s) db.sales
    then seeded
    else observed

-- `json.dumps(…, allow_nan=False)` raises on a NaN or an infinity, at any depth.
unfoldable mutual
  pub dumps_value : Json → Bool
  dumps_value Json.null = true
  dumps_value (Json.boolean b) = true
  dumps_value (Json.integer n) = true
  dumps_value (Json.float x) = is_finite x
  dumps_value (Json.text s) = true
  dumps_value (Json.array xs) = dumps_items xs
  dumps_value (Json.object fs) = dumps fs

  pub dumps_items : Items → Bool
  dumps_items Items.nil = true
  dumps_items (Items.cons x xs) = dumps_value x && dumps_items xs

  pub dumps : Fields → Bool
  dumps Fields.end = true
  dumps (Fields.field key x fs) = dumps_value x && dumps fs

abbrev pub is_open : HistoryRow → Bool
is_open row = not (is_some row.valid_to)

unfoldable pub open_of : List HistoryRow → Prior
open_of [] i = none
open_of (row ∷ rest) i =
    let here =
      if is_open row && row.customer_id == i then some (row.segment_id, row.label_code) else none in
    let later = open_of rest i in elim later [ some o ↦ some o | none ↦ here ]

-- The dict of the open rows; of two rows for one customer the later would stand.
unfoldable pub read_open_assignments : Db → Prior
unfolding open_of
read_open_assignments db = open_of db.history

close_row : ℕ → List ℕ → HistoryRow → HistoryRow
close_row at customers row =
    if is_open row && contains row.customer_id customers
    then record row { valid_to = some at }
    else row

unfoldable pub close_open_assignments : ℕ → List ℕ → List HistoryRow → List HistoryRow
unfolding close_row
close_open_assignments at customers = map (close_row at customers)

abbrev pub opened : ℕ → ℕ → Assignment → HistoryRow
opened run_id at a = record {
  customer_id = a.customer_id;
  run_id = run_id;
  segment_id = a.segment_id;
  label_code = a.label_code;
  last_purchase_at = a.last_purchase_at;
  frequency = a.frequency;
  monetary = a.monetary;
  r_score = a.r_score;
  f_score = a.f_score;
  m_score = a.m_score;
  valid_from = at;
  valid_to = none;
}

-- `UNIQUE (run_id, customer_id)` and `ux_customer_segment_history_open`.
abbrev pub conflicts : ℕ → ℕ → HistoryRow → Bool
conflicts run_id i row = row.customer_id == i && (row.run_id == run_id || is_open row)

-- One INSERT for each assignment; the first that a unique index refuses raises, and what was
-- inserted before it stays until the transaction is rolled back.
unfoldable pub insert_assignments :
    ℕ → ℕ → List Assignment → List HistoryRow → Result Error Unit × List HistoryRow
insert_assignments run_id at [] history = (ok tt, history)
insert_assignments run_id at (a ∷ rest) history =
    let more = insert_assignments run_id at rest (history ++ opened run_id at a ∷ []) in
    if any (conflicts run_id a.customer_id) history then (err unique_violation, history) else more
