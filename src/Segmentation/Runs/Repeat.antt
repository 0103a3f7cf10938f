-- ===== src/Segmentation/Runs/Repeat.antt =====
-- The open rows after a recorded run, and what a later run compares with (web/services/segmentation.py).
use retail_segmentation.Prelude.{
  ℕ, ◌≡◌, refl, false, none, some, List, [], ◌∷◌, ◌++◌, map, arith, if◌then◌else◌, All, All-mono,
  String,
}
use retail_segmentation.Segmentation.Domain.{Assignment, MethodAdapter, RunResult}
use retail_segmentation.Segmentation.Checks.{contains, idents, Distinct}
use retail_segmentation.Segmentation.Counts.{Open, summarise, summarise-no_change}
use retail_segmentation.Segmentation.Store.{
  Db, HistoryRow, opened, read_open_assignments, close_open_assignments,
}
use retail_segmentation.Segmentation.History.{open_rows, open_rows-recorded}
use retail_segmentation.Segmentation.Store.{open_of}
use retail_segmentation.Segmentation.Runs.Outcomes.{Recorded}

open_of-append :
    (h k : List HistoryRow) (i : ℕ) (o : Open) → open_of k i ≡ some o → open_of (h ++ k) i ≡ some o
unfolding open_of
open_of-append [] k i o e = e
open_of-append (row ∷ h) k i o e = rw (open_of-append h k i o e)

open_of-opened :
    (run_id at : ℕ) (rows : List Assignment) (i : ℕ)
    → contains i (idents rows) ≡ false
    → open_of (map (opened run_id at) rows) i ≡ none
unfolding open_of
open_of-opened run_id at [] i h = refl
open_of-opened run_id at (a ∷ rest) i h = ground (arith, open_of-opened run_id at rest i)

abbrev IsOpenIn : List HistoryRow → Assignment → Type 0
IsOpenIn h a = open_of h a.customer_id ≡ some (a.segment_id, a.label_code)

opened-IsOpenIn :
    (run_id at : ℕ) (rows : List Assignment)
    → Distinct (idents rows)
    → All (IsOpenIn (map (opened run_id at) rows)) rows
opened-IsOpenIn run_id at [] d = tt
opened-IsOpenIn run_id at (a ∷ rest) d = (
  unfold open_of in ground (arith, open_of-opened run_id at rest a.customer_id d.0),
  All-mono (IsOpenIn (map (opened run_id at) rest)) (IsOpenIn (map (opened run_id at) (a ∷ rest)))
      (λ b h.
        open_of-append (opened run_id at a ∷ []) (map (opened run_id at) rest) b.customer_id _ h)
      rest (opened-IsOpenIn run_id at rest d.1),
)

module _ (method : String) (days : ℕ) (adapter : MethodAdapter Db) (before after : Db)
    (r : RunResult) (once : Recorded method days adapter before after r) where
  -- A summary of the assignments of a recorded run against the rows that are open after it counts no change.
  pub rerun-no_change :
      ((summarise once.output.assignments (read_open_assignments after)).reassigned ≡ 0)
      × ((summarise once.output.assignments (read_open_assignments after)).cleared ≡ 0)
  unfolding read_open_assignments
  rerun-no_change =
      let rows = once.output.assignments in
      let opened_rows = map (opened before.next_run_id before.clock) rows in
      let closed = close_open_assignments before.clock (idents rows) before.history in
      (summarise-no_change rows (read_open_assignments after)).1 (
        rw once.history (
          All-mono (IsOpenIn opened_rows) (IsOpenIn (closed ++ opened_rows))
            (λ b h. open_of-append closed opened_rows b.customer_id _ h) rows
            (opened-IsOpenIn before.next_run_id before.clock rows once.once)))

  -- A recorded run leaves each customer of its output exactly one open row, and every other customer as many
  -- as before.
  pub open_rows-after_run :
      (i : ℕ)
      → open_rows i after.history
        ≡ (if contains i (idents once.output.assignments) then 1 else open_rows i before.history)
  open_rows-after_run i = rw once.history (
      open_rows-recorded before.next_run_id before.clock once.output.assignments before.history i
        once.once)
