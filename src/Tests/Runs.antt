-- ===== src/Tests/Runs.antt =====
-- Runs of the pipeline, at a concrete shop.
use retail_segmentation.Prelude.{◌≡◌, refl, some, ok, err, arith, if◌then◌else◌}
use retail_segmentation.Segmentation.Domain.{MethodAdapter, notification_failed}
use retail_segmentation.Segmentation.Checks.{contains, idents, validate, validated}
use retail_segmentation.Segmentation.Counts.{summarise}
use retail_segmentation.Segmentation.Store.{
  Db, close_open_assignments, dumps, insert_assignments, read_open_assignments, window_origin,
}
use retail_segmentation.Segmentation.Session.{◌>>=◌, atomic}
use retail_segmentation.Segmentation.Pipeline.{
  choose, create_run, close_open, insert_open, lock_for_run, notify_segment_run, record_run,
  recording, run_method,
}
use retail_segmentation.Segmentation.History.{IsValid, open_rows}
use retail_segmentation.Segmentation.Runs.Outcomes.{
  Recorded, run_method-Recorded, run_method-error, run_method-IsValid,
}
use retail_segmentation.Segmentation.Runs.Repeat.{rerun-no_change, open_rows-after_run}
use retail_segmentation.Tests.Data.{counted, fixed, line, no_notice, notice, shop}

shop-IsValid : IsValid shop
shop-IsValid = record { one_open = λ i. ground arith; fresh = (omega arith, tt) }

ran : (run_method notice "KMEANS" 30 (some fixed) line).0 ≡ ok counted
unfolding run_method record_run recording atomic ◌>>=◌ lock_for_run create_run close_open
    insert_open notify_segment_run validated validate dumps insert_assignments
    close_open_assignments summarise window_origin read_open_assignments
ran = refl

failed : (run_method no_notice "KMEANS" 30 (some fixed) line).0 ≡ err notification_failed
unfolding run_method record_run recording atomic ◌>>=◌ lock_for_run create_run close_open
    insert_open notify_segment_run validated validate dumps insert_assignments
    close_open_assignments summarise window_origin read_open_assignments
failed = refl

run_method-Recorded_example :
    (a : MethodAdapter Db) × (choose (some fixed) "KMEANS" ≡ some a)
    × (a.method ≡ "KMEANS")
    × Recorded "KMEANS" 30 a shop (run_method notice "KMEANS" 30 (some fixed) line).1.stored counted
run_method-Recorded_example =
    run_method-Recorded notice "KMEANS" 30 (some fixed) line counted refl shop-IsValid ran

run_method-error_example : (run_method no_notice "KMEANS" 30 (some fixed) line).1.stored ≡ shop
run_method-error_example =
    run_method-error no_notice "KMEANS" 30 (some fixed) line notification_failed refl failed

run_method-IsValid_example : IsValid (run_method notice "KMEANS" 30 (some fixed) line).1.stored
run_method-IsValid_example =
    run_method-IsValid notice "KMEANS" 30 (some fixed) line refl refl shop-IsValid

recorded_run :
    (a : MethodAdapter Db) × (choose (some fixed) "KMEANS" ≡ some a)
    × (a.method ≡ "KMEANS")
    × Recorded "KMEANS" 30 a shop (run_method notice "KMEANS" 30 (some fixed) line).1.stored counted
recorded_run =
    run_method-Recorded notice "KMEANS" 30 (some fixed) line counted refl shop-IsValid ran

rerun-no_change_example :
    let rows = recorded_run.3.output.assignments in
    let prior = read_open_assignments (run_method notice "KMEANS" 30 (some fixed) line).1.stored in
    ((summarise rows prior).reassigned ≡ 0) × ((summarise rows prior).cleared ≡ 0)
rerun-no_change_example =
    rerun-no_change "KMEANS" 30 recorded_run.0 shop
      (run_method notice "KMEANS" 30 (some fixed) line).1.stored counted recorded_run.3

open_rows-after_run_example :
    open_rows 2 (run_method notice "KMEANS" 30 (some fixed) line).1.stored.history ≡ (
      if contains 2 (idents recorded_run.3.output.assignments) then 1 else open_rows 2 shop.history)
open_rows-after_run_example =
    open_rows-after_run "KMEANS" 30 recorded_run.0 shop
      (run_method notice "KMEANS" 30 (some fixed) line).1.stored counted recorded_run.3 2
