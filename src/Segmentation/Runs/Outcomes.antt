-- ===== src/Segmentation/Runs/Outcomes.antt =====
-- The outcomes of `run_method` of web/services/segmentation.py.
use retail_segmentation.Prelude.{
  ok_injective, ℕ, ◌≡◌, refl, true, false, Option, none, some, List, [], ◌∷◌, ◌++◌, arith, Result,
  ok, err, All, Bool-cases, Result-cases, Option-cases, inl, inr, ap, sym, ◌∙◌, String, str_eq,
  length, ◌⊎◌, ◌≢◌, eq_iff,
}
use retail_segmentation.Segmentation.Domain.{
  Assignment, Error, MethodOutput, MethodAdapter, RunResult, unknown_method, method_unavailable,
  adapter_mismatch,
}
use retail_segmentation.Segmentation.Checks.{
  idents, Distinct, IsRecordable, validated, validated_sound,
}
use retail_segmentation.Segmentation.Store.{Db, window_origin, read_open_assignments}
use retail_segmentation.Segmentation.Session.{
  Connection, Outcome, succeeded, atomic-Outcome, atomic-result, atomic-committed, owned,
  rolled_back, claimed, owned-claimed,
}
use retail_segmentation.Segmentation.Pipeline.{
  recording, record_run, run_method, result, in_methods, choose,
}
use retail_segmentation.Segmentation.History.{IsValid, recorded, open_rows-recorded, fresh-recorded}
use retail_segmentation.Segmentation.Runs.{
  after_run, recording_lem, recording-Steps, recording-Joins,
}

-- A pair and its parts.
from_parts : {A B : Type 0} (p : A × B) {a : A} {b : B} → p ≡ (a, b) → (p.0 ≡ a) × (p.1 ≡ b)
from_parts p h = (ap (λ q. q.0) h, ap (λ q. q.1) h)

-- What a run that returns `r` has done to the database.
pub record Recorded (method : String) (days : ℕ) (adapter : MethodAdapter Db) (before after : Db)
    (r : RunResult) : Type 0 where
  pub output : MethodOutput
  pub decided : adapter.decide before days ≡ ok output
  pub checked : All IsRecordable output.assignments
  pub once : Distinct (idents output.assignments)
  pub runs :
      after.runs
      ≡ before.runs
        ++ record {
          run_id = before.next_run_id;
          method = method;
          window_days = days;
          parameters = output.parameters;
          customer_count = length output.assignments;
          run_at = before.clock;
          data_origin = window_origin before days;
        }
          ∷ []
  pub history :
      after.history ≡ recorded before.next_run_id before.clock output.assignments before.history
  pub valid : IsValid after
  pub counted :
      r
      ≡ result method days output.assignments
          (read_open_assignments before)
          (before.next_run_id, window_origin before days)

module _ (write_notice : ℕ → List ℕ → Result Error (List ℕ)) where
  record_run-error :
      (method : String) (days : ℕ) (adapter : MethodAdapter Db) (c : Connection) (e : Error)
      → owned c ≡ false
      → (record_run write_notice method days adapter c).0 ≡ err e
      → (record_run write_notice method days adapter c).1.stored ≡ c.stored
  unfolding record_run
  record_run-error method days adapter c e o h =
      undone (record_run write_notice method days adapter c).0 refl (
        atomic-Outcome (recording write_notice method days adapter)
          (recording-Joins write_notice method days adapter) c o)
    where
      undone :
          (r : Result Error RunResult)
          → r ≡ (record_run write_notice method days adapter c).0
          → Outcome c (record_run write_notice method days adapter c).1 (succeeded r)
          → (record_run write_notice method days adapter c).1.stored ≡ c.stored
      undone (ok a) s out = cc
      undone (err e') s (rolled_back k l) = k

  -- A method outside the domain, one without an adapter, and an adapter of another method are refused, each
  -- by its own error and with the connection untouched; any other request is one unit of work of the chosen
  -- adapter.
  run_method_cases :
      (method : String) (days : ℕ) (adapter : Option (MethodAdapter Db)) (c : Connection)
      → ((in_methods method ≡ false)
          × (run_method write_notice method days adapter c ≡ (err unknown_method, c)))
        ⊎ ((in_methods method ≡ true)
            × (choose adapter method ≡ none)
            × (run_method write_notice method days adapter c ≡ (err method_unavailable, c)))
        ⊎ ((a : MethodAdapter Db) × (choose adapter method ≡ some a)
            × (a.method ≢ method)
            × (run_method write_notice method days adapter c ≡ (err adapter_mismatch, c)))
        ⊎ ((a : MethodAdapter Db) × (choose adapter method ≡ some a)
            × (a.method ≡ method)
            × (run_method write_notice method days adapter c
                ≡ record_run write_notice method days a c))
  unfolding run_method
  run_method_cases method days adapter c = elim (Bool-cases (in_methods method)) [
    | inr outside ↦ inl (outside, rw outside)
    | inl inside ↦ inr (elim (Option-cases (choose adapter method)) [
      | inl missing ↦ inl (inside, missing, rw (inside, missing))
      | inr (a, there) ↦ inr (elim (Bool-cases (str_eq a.method method)) [
        | inr other ↦
            inl (a, there, (λ e. cc ((eq_iff a.method method).1 e)), rw (inside, there, other))
        | inl same ↦ inr (a, there, (eq_iff a.method method).0 same, rw (inside, there, same))
      ])
    ])
  ]

  run_method-cases :
      (method : String) (days : ℕ) (adapter : Option (MethodAdapter Db)) (c : Connection)
      → ((e : Error) × (run_method write_notice method days adapter c ≡ (err e, c)))
        ⊎ ((a : MethodAdapter Db) × (choose adapter method ≡ some a)
            × (a.method ≡ method)
            × (run_method write_notice method days adapter c
                ≡ record_run write_notice method days a c))
  run_method-cases method days adapter c = elim (run_method_cases method days adapter c) [
    | inl (_, e) ↦ inl (unknown_method, e)
    | inr (inl (_, _, e)) ↦ inl (method_unavailable, e)
    | inr (inr (inl (_, _, _, e))) ↦ inl (adapter_mismatch, e)
    | inr (inr (inr ran)) ↦ inr ran
  ]

  -- On a connection that no unit of work holds, a run that raises, for whatever reason and at whatever step,
  -- leaves the committed database as it was.
  pub run_method-error :
      (method : String) (days : ℕ) (adapter : Option (MethodAdapter Db)) (c : Connection)
      (e : Error)
      → owned c ≡ false
      → (run_method write_notice method days adapter c).0 ≡ err e
      → (run_method write_notice method days adapter c).1.stored ≡ c.stored
  run_method-error method days adapter c e o h = elim (run_method-cases method days adapter c) [
    | inl (e', refused) ↦ rw refused
    | inr (a, there, same, ran) ↦ rw ran (record_run-error method days a c e o (rw (← ran) h))
  ]

  after_run-IsValid :
      (method : String) (days : ℕ) (output : MethodOutput) (rows : List Assignment)
      (notices : List ℕ) (db : Db)
      → IsValid db
      → Distinct (idents rows)
      → IsValid (after_run write_notice method days output rows notices db)
  after_run-IsValid method days output rows notices db v d = record {
    one_open = λ i.
        ground
          (arith, open_rows-recorded db.next_run_id db.clock rows db.history i d, v.one_open i);
    fresh = fresh-recorded db.next_run_id db.clock rows db.history v.fresh;
  }

  pub record_run-Recorded :
      (method : String) (days : ℕ) (adapter : MethodAdapter Db) (c : Connection) (r : RunResult)
      → owned c ≡ false
      → IsValid c.working
      → (record_run write_notice method days adapter c).0 ≡ ok r
      → Recorded method days adapter c.working
          (record_run write_notice method days adapter c).1.stored
          r
  unfolding record_run
  record_run-Recorded method days adapter c r o v h =
      let m = recording write_notice method days adapter in
      let joins = recording-Joins write_notice method days adapter in
      let d = claimed m joins c o in
      let own = owned-claimed m joins c o in
      let body : (m d).0 ≡ ok r = sym (atomic-result m joins c o) ∙ h in
      let steps = recording-Steps write_notice method days adapter d r own v body in
      let sound = validated_sound steps.output steps.rows steps.checked in
      let checks : validated steps.output ≡ ok steps.output.assignments =
        rw sound.0 at steps.checked in
      let sure = validated_sound steps.output steps.output.assignments checks in
      let ran =
        recording_lem write_notice method days adapter d steps.output steps.output.assignments
          steps.notices own v steps.decided checks steps.json steps.announced in
      let stored = atomic-committed m joins c o _ _ ran in
      rw stored (record {
        output = steps.output;
        decided = steps.decided;
        checked = sure.1;
        once = sure.2;
        runs = refl;
        history = refl;
        valid =
            after_run-IsValid method days steps.output steps.output.assignments steps.notices
              c.working v sure.2;
        counted = ok_injective (sym body ∙ (from_parts (m d) ran).0);
      })

  -- On a connection that no unit of work holds and whose database is valid, a run that returns has committed
  -- exactly one run, closed the open row of each customer of the adapter's output and opened one row for each
  -- of them; the output passed its checks, and the counts returned are those of its comparison with the rows
  -- that were open before.
  pub run_method-Recorded :
      (method : String) (days : ℕ) (adapter : Option (MethodAdapter Db)) (c : Connection)
      (r : RunResult)
      → owned c ≡ false
      → IsValid c.working
      → (run_method write_notice method days adapter c).0 ≡ ok r
      → (a : MethodAdapter Db) × (choose adapter method ≡ some a)
        × (a.method ≡ method)
        × Recorded method days a c.working
            (run_method write_notice method days adapter c).1.stored
            r
  run_method-Recorded method days adapter c r o v h =
      elim (run_method-cases method days adapter c) [
        | inl (e', refused) ↦ cc
        | inr (a, there, same, ran) ↦
            (a, there, same, rw ran (record_run-Recorded method days a c r o v (rw (← ran) h)))
      ]

  -- On a connection that no unit of work holds, with nothing uncommitted and a valid database, the committed
  -- database is valid however a run ends: no customer has two open rows, and the next run's id is on no row.
  pub run_method-IsValid :
      (method : String) (days : ℕ) (adapter : Option (MethodAdapter Db)) (c : Connection)
      → owned c ≡ false
      → c.working ≡ c.stored
      → IsValid c.stored
      → IsValid (run_method write_notice method days adapter c).1.stored
  run_method-IsValid method days adapter c o clean v =
      elim (Result-cases (run_method write_notice method days adapter c).0) [
        | inl (r, h) ↦ (run_method-Recorded method days adapter c r o (rw clean v) h).3.valid
        | inr (e, h) ↦ rw (run_method-error method days adapter c e o h) v
      ]
