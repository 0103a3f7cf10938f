-- ===== src/Throttle/Windowed.antt =====
-- When `check` of web/services/login_throttle.py blocks, by the failures within the window.
use retail_segmentation.Prelude.{
  ℕ, ◌≤◌, ◌≡◌, true, false, List, [], ◌∷◌, length, ltb, leb, any, arith, ◌∙◌, Bool, Bool-cases, inl,
  inr,
}
use retail_segmentation.Throttle.OrderedDict.{Buckets, get}
use retail_segmentation.Throttle.{Config, check, found}
use retail_segmentation.Throttle.Blocking.{any-ext, blocking, check-blocking, counted}
use retail_segmentation.Throttle.Failures.{failures, length-live, length-live_least}
use retail_segmentation.Throttle.Ordered.{Each-get, IsUntil, Used, Used-IsOrdered}

-- The failures of a key within the window reach the limit.
abbrev pub has_reached : Config → ℕ → Buckets → ℕ → Bool
has_reached cfg now d key = leb cfg.max_attempts (failures cfg now d key)

any_mono :
    (p q : ℕ → Bool) (xs : List ℕ)
    → ((x : ℕ) → p x ≡ true → q x ≡ true)
    → any p xs ≡ true
    → any q xs ≡ true
any_mono p q [] m h = h
any_mono p q (x ∷ xs) m h = elim (Bool-cases (p x)) [
  | inl here ↦ rw (m x here)
  | inr there ↦
      let rest = any_mono p q xs m (rw there at h) in
      elim (Bool-cases (q x)) [ inl t ↦ rw t | inr f ↦ rw f rest ]
]

-- With a limit of at least one attempt, a request is blocked when one of its keys has at least `max_attempts`
-- failures within the window, whatever the table holds and in whatever order.
pub check-blocks :
    (cfg : Config) (now : ℕ) (keys : List ℕ) (d : Buckets)
    → 1 ≤ cfg.max_attempts
    → any (has_reached cfg now d) keys ≡ true
    → (check cfg now keys d).0.blocked ≡ true
check-blocks cfg now keys d positive h =
    check-blocking cfg now keys d positive
    ∙ any_mono (has_reached cfg now d) (blocking cfg now d) keys
        (λ key reached.
          let least = length-live_least cfg now (found (get key d)) in
          let few : ltb (length (counted cfg now key d)) cfg.max_attempts ≡ false = ground arith in
          rw few)
        h

-- With a limit of at least one attempt, and a table that checks, failures and clears made of the empty one, each
-- taking the lock in the order of their clock readings, a request is blocked exactly when one of its keys has
-- at least `max_attempts` failures in the table whose `window_seconds` have not passed.
pub check_lem :
    (cfg : Config) (last now : ℕ) (keys : List ℕ) (d : Buckets)
    → 1 ≤ cfg.max_attempts
    → Used cfg last d
    → (check cfg now keys d).0.blocked ≡ any (has_reached cfg now d) keys
check_lem cfg last now keys d positive used =
    check-blocking cfg now keys d positive
    ∙ any-ext (blocking cfg now d) (has_reached cfg now d) keys (λ key.
      let ordered = Each-get (IsUntil last) key d (tt, tt) (Used-IsOrdered cfg last d used) in
      let e = length-live cfg now (found (get key d)) ordered.0 in rw e (ground arith))
