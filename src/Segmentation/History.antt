-- ===== src/Segmentation/History.antt =====
-- The history table of web/db/segments.py under a run: its open rows and its unique indexes.
use retail_segmentation.Prelude.{
  ℕ, ◌+◌, ◌≤◌, ◌<◌, ◌≡◌, refl, Bool, true, false, ◌&&◌, ◌||◌, List, [], ◌∷◌, ◌++◌, map, arith, ◌==◌,
  if◌then◌else◌, any, ok, count_if, All, All-append, ap, ◌∙◌,
}
use mathlib.Core.List.{append_assoc, append-nil}
use retail_segmentation.Segmentation.Domain.{Assignment}
use retail_segmentation.Segmentation.Checks.{contains, idents, Distinct}
use retail_segmentation.Segmentation.Store.{
  Db, HistoryRow, is_open, close_open_assignments, opened, conflicts, insert_assignments,
}

abbrev pub open_rows : ℕ → List HistoryRow → ℕ
open_rows i = count_if (λ row. is_open row && row.customer_id == i)

-- No customer has two open rows, and the next run's id is on no row.
pub record IsValid (db : Db) : Type 0 where
  pub one_open : (i : ℕ) → open_rows i db.history ≤ 1
  pub fresh : All (λ row. row.run_id < db.next_run_id) db.history

pub open_rows-append :
    (i : ℕ) (h k : List HistoryRow) → open_rows i (h ++ k) ≡ open_rows i h + open_rows i k
open_rows-append i [] k = omega arith
open_rows-append i (row ∷ h) k = ground (arith, open_rows-append i h k)

-- Closing leaves a listed customer no open row, and any other customer the rows it had.
pub open_rows-close :
    (i at : ℕ) (customers : List ℕ) (h : List HistoryRow)
    → open_rows i (close_open_assignments at customers h)
      ≡ (if contains i customers then 0 else open_rows i h)
unfolding close_open_assignments
open_rows-close i at customers [] = ground arith
open_rows-close i at customers (row ∷ h) = ground (arith, open_rows-close i at customers h)

pub open_rows-opened :
    (i run_id at : ℕ) (rows : List Assignment)
    → Distinct (idents rows)
    → open_rows i (map (opened run_id at) rows) ≡ (if contains i (idents rows) then 1 else 0)
open_rows-opened i run_id at [] d = refl
open_rows-opened i run_id at (a ∷ rest) d = ground (arith, open_rows-opened i run_id at rest d.1)

abbrev Free : ℕ → List HistoryRow → List Assignment → Type 0
Free run_id h = All (λ a. any (conflicts run_id a.customer_id) h ≡ false)

any-append : (p : HistoryRow → Bool) (h k : List HistoryRow) → any p (h ++ k) ≡ (any p h || any p k)
any-append p [] k = refl
any-append p (row ∷ h) k = ground (arith, any-append p h k)

Free-opened :
    (run_id at : ℕ) (h : List HistoryRow) (a : Assignment) (rows : List Assignment)
    → Free run_id h rows
    → contains a.customer_id (idents rows) ≡ false
    → Free run_id (h ++ opened run_id at a ∷ []) rows
Free-opened run_id at h a [] f c = tt
Free-opened run_id at h a (b ∷ rest) f c = ground (
  arith,
  any-append (conflicts run_id b.customer_id) h (opened run_id at a ∷ []),
  Free-opened run_id at h a rest f.1,
)

-- Where no row of the table is in the way, every assignment is inserted, in order.
pub insert_assignments_lem :
    (run_id at : ℕ) (rows : List Assignment) (h : List HistoryRow)
    → Free run_id h rows
    → Distinct (idents rows)
    → insert_assignments run_id at rows h ≡ (ok tt, h ++ map (opened run_id at) rows)
unfolding insert_assignments
insert_assignments_lem run_id at [] h f d = rw append-nil
insert_assignments_lem run_id at (a ∷ rest) h f d = rw f.0 (
    insert_assignments_lem run_id at rest (h ++ opened run_id at a ∷ [])
      (Free-opened run_id at h a rest f.1 d.0) d.1
    ∙ ap (λ (t : List HistoryRow). (ok tt, t))
        (append_assoc h (opened run_id at a ∷ []) (map (opened run_id at) rest)))

closed_conflicts :
    (run_id i at : ℕ) (customers : List ℕ) (h : List HistoryRow)
    → All (λ row. row.run_id < run_id) h
    → contains i customers ≡ true
    → any (conflicts run_id i) (close_open_assignments at customers h) ≡ false
unfolding close_open_assignments
closed_conflicts run_id i at customers [] f c = refl
closed_conflicts run_id i at customers (row ∷ h) f c =
    ground (arith, closed_conflicts run_id i at customers h f.1)

Free-closed_from :
    (run_id at : ℕ) (customers : List ℕ) (h : List HistoryRow) (rows : List Assignment)
    → All (λ row. row.run_id < run_id) h
    → All (λ a. contains a.customer_id customers ≡ true) rows
    → Free run_id (close_open_assignments at customers h) rows
Free-closed_from run_id at customers h [] f m = tt
Free-closed_from run_id at customers h (a ∷ rest) f m = (
  closed_conflicts run_id a.customer_id at customers h f m.0,
  Free-closed_from run_id at customers h rest f m.1,
)

All-weaken :
    (x : ℕ) (customers : List ℕ) (rows : List Assignment)
    → All (λ a. contains a.customer_id customers ≡ true) rows
    → All (λ a. contains a.customer_id (x ∷ customers) ≡ true) rows
All-weaken x customers [] h = tt
All-weaken x customers (a ∷ rest) h = ground (arith, All-weaken x customers rest)

idents-contained :
    (rows : List Assignment) → All (λ a. contains a.customer_id (idents rows) ≡ true) rows
idents-contained [] = tt
idents-contained (a ∷ rest) =
    (ground arith, All-weaken a.customer_id (idents rest) rest (idents-contained rest))

-- The history after a run: what was open for its customers is closed, and one row each is opened.
abbrev pub recorded : ℕ → ℕ → List Assignment → List HistoryRow → List HistoryRow
recorded run_id at rows h = close_open_assignments at (idents rows) h ++ map (opened run_id at) rows

module _ (run_id at : ℕ) (rows : List Assignment) (h : List HistoryRow) where
  pub insert-recorded :
      All (λ row. row.run_id < run_id) h
      → Distinct (idents rows)
      → insert_assignments run_id at rows (close_open_assignments at (idents rows) h)
        ≡ (ok tt, recorded run_id at rows h)
  insert-recorded f d =
      insert_assignments_lem run_id at rows (close_open_assignments at (idents rows) h)
        (Free-closed_from run_id at (idents rows) h rows f (idents-contained rows)) d

  pub open_rows-recorded :
      (i : ℕ)
      → Distinct (idents rows)
      → open_rows i (recorded run_id at rows h)
        ≡ (if contains i (idents rows) then 1 else open_rows i h)
  open_rows-recorded i d = ground (
    arith,
    open_rows-append i (close_open_assignments at (idents rows) h) (map (opened run_id at) rows),
    open_rows-close i at (idents rows) h,
    open_rows-opened i run_id at rows d,
  )

fresh-close :
    (run_id at : ℕ) (customers : List ℕ) (h : List HistoryRow)
    → All (λ row. row.run_id < run_id) h
    → All (λ row. row.run_id < run_id + 1) (close_open_assignments at customers h)
unfolding close_open_assignments
fresh-close run_id at customers [] f = tt
fresh-close run_id at customers (row ∷ h) f = ground (arith, fresh-close run_id at customers h f.1)

fresh-opened :
    (run_id at : ℕ) (rows : List Assignment)
    → All (λ row. row.run_id < run_id + 1) (map (opened run_id at) rows)
fresh-opened run_id at [] = tt
fresh-opened run_id at (a ∷ rest) = (omega arith, fresh-opened run_id at rest)

pub fresh-recorded :
    (run_id at : ℕ) (rows : List Assignment) (h : List HistoryRow)
    → All (λ row. row.run_id < run_id) h
    → All (λ row. row.run_id < run_id + 1) (recorded run_id at rows h)
fresh-recorded run_id at rows h f =
    All-append (λ (row : HistoryRow). row.run_id < run_id + 1)
      (close_open_assignments at (idents rows) h) (map (opened run_id at) rows)
      (fresh-close run_id at (idents rows) h f) (fresh-opened run_id at rows)
