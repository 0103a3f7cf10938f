-- ===== src/Tests/Throttle.antt =====
-- The login throttle, at concrete tables.
use retail_segmentation.Prelude.{
  ◌≤◌, ◌≡◌, refl, none, [], ◌∷◌, length, any, ◌==◌, if◌then◌else◌, arith,
}
use retail_segmentation.Throttle.OrderedDict.{Buckets, get}
use retail_segmentation.Throttle.{Config, check, record_failure, clear}
use retail_segmentation.Throttle.Ordered.{Used}
use retail_segmentation.Throttle.Windowed.{check_lem, has_reached}
use retail_segmentation.Throttle.Bounds.{length-record_failure, get-clear}

abbrev limits : Config
limits = record { max_attempts = 2; window_seconds = 60; max_keys = 2 }

abbrev table : Buckets
table = (7, 1000000000 ∷ 30000000000 ∷ []) ∷ (8, 2000000000 ∷ []) ∷ []

abbrev used : Buckets
used = record_failure limits 30000000000 (7 ∷ []) (record_failure limits 1000000000 (8 ∷ 7 ∷ []) [])

used-Used : Used limits 30000000000 used
used-Used =
    Used.failed (7 ∷ [])
      (Used.failed {now = 1000000000} (8 ∷ 7 ∷ []) (Used.fresh {now = 1000000000} refl)
        (omega arith) refl)
      (omega arith) refl

check_lem_example :
    (check limits 40000000000 (8 ∷ 7 ∷ []) used).0.blocked
    ≡ any (has_reached limits 40000000000 used) (8 ∷ 7 ∷ [])
check_lem_example =
    check_lem limits 30000000000 40000000000 (8 ∷ 7 ∷ []) used (omega arith) used-Used

length-record_failure_example :
    (length (check limits 40000000000 (9 ∷ []) table).1 ≤ limits.max_keys)
    × (length (record_failure limits 40000000000 (9 ∷ []) table) ≤ limits.max_keys)
length-record_failure_example = length-record_failure limits 40000000000 (9 ∷ []) table

get-clear_example :
    get 8 (clear (7 ∷ []) table) ≡ (if any (λ key. key == 8) (7 ∷ []) then none else get 8 table)
get-clear_example = get-clear 8 (7 ∷ []) table
