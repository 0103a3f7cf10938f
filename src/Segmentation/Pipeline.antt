-- ===== src/Segmentation/Pipeline.antt =====
-- The pipeline of web/services/segmentation.py: `_record`, one unit of work, and `run_method`.
use retail_segmentation.Prelude.{
  ℕ, ◌+◌, Bool, not, Option, none, some, List, [], ◌∷◌, ◌++◌, if◌then◌else◌, String, str_eq, any,
  Result, ok, err, length,
}
use retail_segmentation.Segmentation.Domain.{
  Assignment, Fields, Error, not_json, unknown_method, method_unavailable, adapter_mismatch,
  MethodAdapter, RunResult,
}
use retail_segmentation.Segmentation.Checks.{validated, idents}
use retail_segmentation.Segmentation.Counts.{Prior, summarise}
use retail_segmentation.Segmentation.Store.{
  Db, Run, window_origin, dumps, read_open_assignments, close_open_assignments, insert_assignments,
}
use retail_segmentation.Segmentation.Session.{Action, pure, lift, gets, update, ◌>>=◌, ◌>>◌, atomic}
use retail_segmentation.Segmentation.Scoring.{rfm_rules_adapter}

-- `pg_advisory_xact_lock`, then the clock: runs on other connections have ended.
unfoldable pub lock_for_run : Action ℕ
lock_for_run = gets (λ db. db.clock)

unfoldable pub create_run : String → ℕ → Fields → ℕ → ℕ → Action (ℕ × String)
create_run method days parameters customer_count run_at = update λ db.
    let origin = window_origin db days in
    let run : Run = record {
      run_id = db.next_run_id;
      method = method;
      window_days = days;
      parameters = parameters;
      customer_count = customer_count;
      run_at = run_at;
      data_origin = origin;
    } in
    if dumps parameters
    then (
      ok (db.next_run_id, origin),
      record db { next_run_id = db.next_run_id + 1; runs = db.runs ++ run ∷ [] },
    )
    else (err not_json, db)

-- `close_open_assignments` and `insert_assignments` on the connection.
unfoldable pub close_open : ℕ → List ℕ → Action Unit
close_open at customers =
    update λ db. (ok tt, record db { history = close_open_assignments at customers db.history })

unfoldable pub insert_open : ℕ → ℕ → List Assignment → Action Unit
insert_open run_id at rows = update λ db.
    let (r, history) = insert_assignments run_id at rows db.history in
    (r, record db { history = history })

abbrev pub rfm_rules : MethodAdapter Db
rfm_rules = record { method = "RFM_RULES"; decide = rfm_rules_adapter }

-- `_ADAPTERS.get(method)`
abbrev pub registered : String → Option (MethodAdapter Db)
registered method = if str_eq method "RFM_RULES" then some rfm_rules else none

abbrev pub in_methods : String → Bool
in_methods method = any (str_eq method) ("RFM_RULES" ∷ "KMEANS" ∷ [])

abbrev pub choose : Option (MethodAdapter Db) → String → Option (MethodAdapter Db)
choose (some adapter) method = some adapter
choose none method = registered method

abbrev pub result : String → ℕ → List Assignment → Prior → ℕ × String → RunResult
result method days rows prior (run_id, origin) =
    let counts = summarise rows prior in
    record {
      window_days = days;
      processed = counts.processed;
      assigned = counts.assigned;
      unmatched = counts.unmatched;
      reassigned = counts.reassigned;
      cleared = counts.cleared;
      fallback = counts.fallback;
      run_id = run_id;
      method = method;
      data_origin = origin;
    }

-- The notification written for a recorded run, or its failure (web/services/notifications.py).
module _ (write_notice : ℕ → List ℕ → Result Error (List ℕ)) where
  abbrev noticed : Db → Result Error (List ℕ) → Result Error Unit × Db
  noticed db (ok notices) = (ok tt, record db { notices = notices })
  noticed db (err e) = (err e, db)

  -- Decorated with `atomic` too: within a run it joins the run's unit of work.
  unfoldable pub notify_segment_run : ℕ → Action Unit
  unfolding atomic
  notify_segment_run run_id = atomic (update λ db. noticed db (write_notice run_id db.notices))

  -- The body of `_record`, without its decorator.
  unfoldable pub recording : String → ℕ → MethodAdapter Db → Action RunResult
  recording method days adapter = do
    recorded_at ← lock_for_run
    decided ← gets (λ db. adapter.decide db days)
    output ← lift decided
    rows ← lift (validated output)
    prior ← gets read_open_assignments
    run ← create_run method days output.parameters (length rows) recorded_at
    close_open recorded_at (idents rows)
    insert_open run.0 recorded_at rows
    notify_segment_run run.0
    pure (result method days rows prior run)

  unfoldable pub record_run : String → ℕ → MethodAdapter Db → Action RunResult
  record_run method days adapter = atomic (recording method days adapter)

  run_chosen : String → ℕ → Option (MethodAdapter Db) → Action RunResult
  run_chosen method days none = lift (err method_unavailable)
  run_chosen method days (some adapter) =
      if not (str_eq adapter.method method)
      then lift (err adapter_mismatch)
      else record_run method days adapter

  unfoldable pub run_method : String → ℕ → Option (MethodAdapter Db) → Action RunResult
  unfolding run_chosen
  run_method method days adapter =
      if not (in_methods method)
      then lift (err unknown_method)
      else run_chosen method days (choose adapter method)

  -- The recalculation that the segment-run page starts.
  unfoldable pub run : ℕ → Action RunResult
  unfolding run_method
  run days = run_method "RFM_RULES" days none
