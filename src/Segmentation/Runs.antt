-- ===== src/Segmentation/Runs.antt =====
-- The steps of `_record` of web/services/segmentation.py, and the database after them.
pub mod Outcomes
pub mod Repeat
pub mod Rules
use retail_segmentation.Prelude.{
  ℕ, zero, suc, ◌+◌, ◌-◌, ◌≤◌, ◌<◌, ◌≡◌, refl, Bool, true, false, ◌&&◌, ◌||◌, not, Option, none,
  some, List, [], ◌∷◌, ◌++◌, map, arith, ◌==◌, if◌then◌else◌, any, Result, ok, err, count_if, All,
  Bool-cases, Result-cases, inl, inr, ap, sym, ◌∙◌, String, str_eq, length, ◌⊎◌, ◌≢◌, eq_iff,
}
use retail_segmentation.Segmentation.Domain.{
  Assignment, Error, is_some, MethodOutput, MethodAdapter, RunResult, not_json, unique_violation,
  unknown_method, method_unavailable, adapter_mismatch,
}
use retail_segmentation.Segmentation.Checks.{contains, idents, Distinct, validated, validated_sound}
use retail_segmentation.Segmentation.Counts.{Prior, summarise}
use retail_segmentation.Segmentation.Store.{
  Db, Run, HistoryRow, is_open, opened, dumps, window_origin, read_open_assignments,
  close_open_assignments, insert_assignments,
}
use retail_segmentation.Segmentation.Session.{
  Connection, Action, ◌>>=◌, atomic, Joins, joins_rules, Outcome, succeeded, atomic-Outcome, owned,
  pure, lift, gets, update, committed, rolled_back,
}
use retail_segmentation.Segmentation.Pipeline.{
  lock_for_run, create_run, close_open, insert_open, notify_segment_run, recording, record_run,
  run_method, result, in_methods,
}
use retail_segmentation.Segmentation.History.{
  IsValid, recorded, insert-recorded, open_rows, open_rows-recorded, fresh-recorded,
}

module _ (write_notice : ℕ → List ℕ → Result Error (List ℕ)) where
  -- The database once a run of these rows is recorded.
  abbrev after_run : String → ℕ → MethodOutput → List Assignment → List ℕ → Db → Db
  after_run method days output rows notices db = record db {
    next_run_id = db.next_run_id + 1;
    runs =
        db.runs
        ++ record {
          run_id = db.next_run_id;
          method = method;
          window_days = days;
          parameters = output.parameters;
          customer_count = length rows;
          run_at = db.clock;
          data_origin = window_origin db days;
        }
          ∷ [];
    history = recorded db.next_run_id db.clock rows db.history;
    notices = notices;
  }

  recording_lem :
      (method : String) (days : ℕ) (adapter : MethodAdapter Db) (c : Connection)
      (output : MethodOutput) (rows : List Assignment) (notices : List ℕ)
      → owned c ≡ true
      → IsValid c.working
      → adapter.decide c.working days ≡ ok output
      → validated output ≡ ok rows
      → dumps output.parameters ≡ true
      → write_notice c.working.next_run_id c.working.notices ≡ ok notices
      → recording write_notice method days adapter c ≡ (
        ok (
            result method days rows
              (read_open_assignments c.working)
              (c.working.next_run_id, window_origin c.working days)),
        record c { working = after_run method days output rows notices c.working },
      )
  unfolding recording ◌>>=◌ lock_for_run create_run close_open insert_open notify_segment_run
  recording_lem method days adapter c output rows notices o v e1 e2 e3 e4 =
      let d = (validated_sound output rows e2).2 in
      rw (
        e1,
        e2,
        e3,
        insert-recorded c.working.next_run_id c.working.clock rows c.working.history v.fresh d,
        o,
        e4,
      )

  -- What a run that returns has found at each step that can raise.
  record Steps (days : ℕ) (adapter : MethodAdapter Db) (db : Db) : Type 0 where
    output : MethodOutput
    rows : List Assignment
    notices : List ℕ
    decided : adapter.decide db days ≡ ok output
    checked : validated output ≡ ok rows
    json : dumps output.parameters ≡ true
    announced : write_notice db.next_run_id db.notices ≡ ok notices

  recording-undecided :
      (method : String) (days : ℕ) (adapter : MethodAdapter Db) (c : Connection) (e : Error)
      → adapter.decide c.working days ≡ err e
      → (recording write_notice method days adapter c).0 ≡ err e
  unfolding recording ◌>>=◌ lock_for_run
  recording-undecided method days adapter c e h = rw h

  recording-unchecked :
      (method : String) (days : ℕ) (adapter : MethodAdapter Db) (c : Connection)
      (output : MethodOutput) (e : Error)
      → adapter.decide c.working days ≡ ok output
      → validated output ≡ err e
      → (recording write_notice method days adapter c).0 ≡ err e
  unfolding recording ◌>>=◌ lock_for_run
  recording-unchecked method days adapter c output e h k = rw (h, k)

  recording-not_json :
      (method : String) (days : ℕ) (adapter : MethodAdapter Db) (c : Connection)
      (output : MethodOutput) (rows : List Assignment)
      → adapter.decide c.working days ≡ ok output
      → validated output ≡ ok rows
      → dumps output.parameters ≡ false
      → (recording write_notice method days adapter c).0 ≡ err not_json
  unfolding recording ◌>>=◌ lock_for_run create_run
  recording-not_json method days adapter c output rows h k j = rw (h, k, j)

  recording-unannounced :
      (method : String) (days : ℕ) (adapter : MethodAdapter Db) (c : Connection)
      (output : MethodOutput) (rows : List Assignment) (e : Error)
      → owned c ≡ true
      → IsValid c.working
      → adapter.decide c.working days ≡ ok output
      → validated output ≡ ok rows
      → dumps output.parameters ≡ true
      → write_notice c.working.next_run_id c.working.notices ≡ err e
      → (recording write_notice method days adapter c).0 ≡ err e
  unfolding recording ◌>>=◌ lock_for_run create_run close_open insert_open notify_segment_run
  recording-unannounced method days adapter c output rows e o v e1 e2 e3 e4 =
      let d = (validated_sound output rows e2).2 in
      rw (
        e1,
        e2,
        e3,
        insert-recorded c.working.next_run_id c.working.clock rows c.working.history v.fresh d,
        o,
        e4,
      )

  recording-Steps :
      (method : String) (days : ℕ) (adapter : MethodAdapter Db) (c : Connection) (r : RunResult)
      → owned c ≡ true
      → IsValid c.working
      → (recording write_notice method days adapter c).0 ≡ ok r
      → Steps days adapter c.working
  recording-Steps method days adapter c r o v h =
      elim (Result-cases (adapter.decide c.working days)) [
        | inr (e, d) ↦ cc (recording-undecided method days adapter c e d)
        | inl (output, d) ↦ elim (Result-cases (validated output)) [
          | inr (e, k) ↦ cc (recording-unchecked method days adapter c output e d k)
          | inl (rows, k) ↦ elim (Bool-cases (dumps output.parameters)) [
            | inr j ↦ cc (recording-not_json method days adapter c output rows d k j)
            | inl j ↦ elim (Result-cases (write_notice c.working.next_run_id c.working.notices)) [
              | inr (e, n) ↦
                  cc (recording-unannounced method days adapter c output rows e o v d k j n)
              | inl (notices, n) ↦ record {
                output = output;
                rows = rows;
                notices = notices;
                decided = d;
                checked = k;
                json = j;
                announced = n;
              }
            ]
          ]
        ]
      ]

  recording-Joins :
      (method : String) (days : ℕ) (adapter : MethodAdapter Db)
      → Joins (recording write_notice method days adapter)
  unfolding recording lock_for_run create_run close_open insert_open notify_segment_run
  recording-Joins method days adapter = search joins_rules depth 12
