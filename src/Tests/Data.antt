-- ===== src/Tests/Data.antt =====
-- A shop with two customers, a sale and one live segment.
use retail_segmentation.Prelude.{
  ℕ, false, none, some, List, [], ◌∷◌, Result, ok, ◌==◌, if◌then◌else◌,
}
use retail_segmentation.Segmentation.Domain.{
  Assignment, Error, Fields, MethodAdapter, MethodOutput, RunResult,
}
use retail_segmentation.Segmentation.Counts.{Prior}
use retail_segmentation.Segmentation.Store.{Db, HistoryRow}
use retail_segmentation.Segmentation.Session.{Connection}

abbrev pub gold_row : Assignment
gold_row = record {
  customer_id = 1;
  label_code = some "GOLD";
  segment_id = some 3;
  last_purchase_at = some 1000;
  frequency = some 2;
  monetary = some 5000;
  r_score = some 5;
  f_score = some 5;
  m_score = some 5;
  via_fallback = false;
}

abbrev pub unlabelled_row : Assignment
unlabelled_row = record {
  customer_id = 2;
  label_code = none;
  segment_id = none;
  last_purchase_at = none;
  frequency = none;
  monetary = none;
  r_score = none;
  f_score = none;
  m_score = none;
  via_fallback = false;
}

abbrev pub two_rows : MethodOutput
two_rows = record { assignments = gold_row ∷ unlabelled_row ∷ []; parameters = Fields.end }

abbrev pub one_open_label : Prior
one_open_label i = if i == 1 then some (some 3, some "GOLD") else none

abbrev earlier_row : HistoryRow
earlier_row = record {
  customer_id = 1;
  run_id = 4;
  segment_id = some 3;
  label_code = some "SILVER";
  last_purchase_at = some 500;
  frequency = some 1;
  monetary = some 2500;
  r_score = none;
  f_score = none;
  m_score = none;
  valid_from = 600;
  valid_to = none;
}

abbrev pub shop : Db
shop = record {
  now = 2000;
  clock = 2001;
  today = 10;
  customers = 2 ∷ 1 ∷ [];
  sales =
      record { customer_id = 1; occurred_at = 1000; total = 5000; data_origin = "OBSERVED" } ∷ [];
  segments =
      record { segment_id = 3; label_code = "GOLD"; rule_id = 1; valid_from = 1; valid_to = none }
      ∷ [];
  rules =
      record { rule_id = 1; r_min = 1; r_max = 5; f_min = 1; f_max = 5; m_min = 1; m_max = 5 } ∷ [];
  labels = record { label_code = "GOLD"; ordinal_position = 1 } ∷ [];
  next_run_id = 5;
  runs = [];
  history = earlier_row ∷ [];
  notices = [];
}

abbrev pub line : Connection
line = record { ident = 1; owners = []; stored = shop; working = shop }

-- An adapter of the k-means method that decides the two rows whatever it reads.
abbrev pub fixed : MethodAdapter Db
fixed = record { method = "KMEANS"; decide = λ db days. ok two_rows }

abbrev pub notice : ℕ → List ℕ → Result Error (List ℕ)
notice run_id notices = ok (run_id ∷ notices)

abbrev pub no_notice : ℕ → List ℕ → Result Error (List ℕ)
no_notice run_id notices = Result.err Error.notification_failed

abbrev pub counted : RunResult
counted = record {
  window_days = 30;
  processed = 2;
  assigned = 1;
  unmatched = 1;
  reassigned = 1;
  cleared = 1;
  fallback = 0;
  run_id = 5;
  method = "KMEANS";
  data_origin = "OBSERVED";
}
