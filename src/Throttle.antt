-- ===== src/Throttle.antt =====
-- `LoginThrottle` of web/services/login_throttle.py. A bucket key is only compared, so it is a number;
-- the clock is read in nanoseconds. The lock makes each method one step.
pub mod OrderedDict
pub mod Blocking
pub mod Bounds
pub mod Failures
pub mod Ordered
pub mod Windowed
use Prim.Native.Nat.{max}
use retail_segmentation.Prelude.{
  ℕ, zero, suc, ◌+◌, ◌-◌, ◌*◌, ◌/◌, Bool, true, false, not, Option, none, some, List, [], ◌∷◌, ◌++◌,
  length, if◌then◌else◌, ltb, leb, ◌==◌,
}
use retail_segmentation.Throttle.OrderedDict.{
  Buckets, get, pop, put_last, move_to_end, set_default, put,
}

pub record Config : Type 0 where
  pub max_attempts : ℕ
  pub window_seconds : ℕ
  pub max_keys : ℕ

-- `__init__`: each limit is at least 1.
unfoldable pub configured : ℕ → ℕ → ℕ → Config
configured attempts window keys = record {
  max_attempts = max 1 attempts;
  window_seconds = max 1 window;
  max_keys = max 1 keys;
}

abbrev pub second : ℕ
second = 1000000000

-- The window in nanoseconds.
abbrev pub window : Config → ℕ
window cfg = cfg.window_seconds * second

pub record Decision : Type 0 where
  pub blocked : Bool
  pub retry_after : ℕ

-- `while attempts and attempts[0] <= cutoff: attempts.popleft()`, the cutoff being a window before now.
pub live : Config → ℕ → List ℕ → List ℕ
live cfg now [] = []
live cfg now (a ∷ attempts) =
    let rest = live cfg now attempts in if leb (a + window cfg) now then rest else a ∷ attempts

abbrev pub found : Option (List ℕ) → List ℕ
found none = []
found (some attempts) = attempts

-- `if not attempts: pop; setdefault`, after the move to the end.
abbrev renew : ℕ → List ℕ → Buckets → Buckets
renew key [] d = set_default key (pop key d)
renew key (a ∷ attempts) d = d

-- `_prune`: the state after it and the deque that it returns.
unfoldable pub prune : Config → ℕ → ℕ → Buckets → Buckets × List ℕ
unfolding live get pop move_to_end set_default put
prune cfg key now d =
    let d1 = set_default key d in
    let attempts = live cfg now (found (get key d1)) in
    (renew key attempts (move_to_end key (put key attempts d1)), attempts)

abbrev retry_one : Config → ℕ → List ℕ → ℕ → ℕ
retry_one cfg now [] retry = retry
retry_one cfg now (a ∷ attempts) retry =
    if not (ltb (length (a ∷ attempts)) cfg.max_attempts)
    then max retry (max 1 ((a + window cfg - now) / second))
    else retry

check_all : Config → ℕ → List ℕ → ℕ → Buckets → ℕ × Buckets
unfolding prune
check_all cfg now [] retry d = (retry, d)
check_all cfg now (key ∷ keys) retry d =
    let (d', attempts) = prune cfg key now d in
    check_all cfg now keys (retry_one cfg now attempts retry) d'

-- `_trim`
pub trim : Config → Buckets → Buckets
trim cfg [] = []
trim cfg (b ∷ d) =
    let rest = trim cfg d in if ltb cfg.max_keys (length (b ∷ d)) then rest else b ∷ d

unfoldable pub check : Config → ℕ → List ℕ → Buckets → Decision × Buckets
unfolding check_all trim
check cfg now keys d =
    let (retry, d') = check_all cfg now keys 0 d in
    (record { blocked = not (retry == 0); retry_after = retry }, trim cfg d')

record_all : Config → ℕ → List ℕ → Buckets → Buckets
unfolding prune
record_all cfg now [] d = d
record_all cfg now (key ∷ keys) d =
    let (d', attempts) = prune cfg key now d in
    record_all cfg now keys (move_to_end key (put key (attempts ++ now ∷ []) d'))

unfoldable pub record_failure : Config → ℕ → List ℕ → Buckets → Buckets
unfolding record_all trim
record_failure cfg now keys d = trim cfg (record_all cfg now keys d)

unfoldable pub clear : List ℕ → Buckets → Buckets
unfolding pop
clear [] d = d
clear (key ∷ keys) d = clear keys (pop key d)
