-- ===== src/Throttle/Bounds.antt =====
-- The table of buckets after each method of web/services/login_throttle.py.
use retail_segmentation.Prelude.{
  ℕ, ◌≤◌, ◌≡◌, refl, Bool, true, false, none, List, [], ◌∷◌, length, ltb, ◌==◌, ◌||◌, ◌∙◌,
  if◌then◌else◌, any, arith, Bool-cases, inl, inr,
}
use retail_segmentation.Throttle.OrderedDict.{Buckets, get, pop, get-pop}
use retail_segmentation.Throttle.{Config, trim, check, check_all, record_failure, record_all, clear}

length-trim : (cfg : Config) (d : Buckets) → length (trim cfg d) ≤ cfg.max_keys
unfolding trim
length-trim cfg [] = ground arith
length-trim cfg (b ∷ d) = elim (Bool-cases (ltb cfg.max_keys (length (b ∷ d)))) [
  | inl full ↦ rw full (length-trim cfg d)
  | inr fits ↦ rw fits (ground arith)
]

-- Neither a check nor a recorded failure leaves more buckets than `max_keys`, whatever the table held before
-- and however many keys the request names.
pub length-record_failure :
    (cfg : Config) (now : ℕ) (keys : List ℕ) (d : Buckets)
    → (length (check cfg now keys d).1 ≤ cfg.max_keys)
      × (length (record_failure cfg now keys d) ≤ cfg.max_keys)
unfolding check record_failure
length-record_failure cfg now keys d =
    (length-trim cfg (check_all cfg now keys 0 d).1, length-trim cfg (record_all cfg now keys d))

-- After `clear` the table holds no bucket for the keys of the request, and every other bucket as it was.
pub get-clear :
    (j : ℕ) (keys : List ℕ) (d : Buckets)
    → get j (clear keys d) ≡ (if any (λ key. key == j) keys then none else get j d)
unfolding clear
get-clear j [] d = refl
get-clear j (key ∷ keys) d =
    get-clear j keys (pop key d)
    ∙ rw (get-pop j key d) (by_cases (key == j) (any (λ k. k == j) keys))
  where
    by_cases :
        (b c : Bool)
        → (if c then none else (if b then none else get j d)) ≡ (if b || c then none else get j d)
    by_cases true true = refl
    by_cases true false = refl
    by_cases false true = refl
    by_cases false false = refl
