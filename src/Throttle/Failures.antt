-- ===== src/Throttle/Failures.antt =====
-- The failures within the window, as web/services/login_throttle.py promises to count them.
use retail_segmentation.Prelude.{
  ℕ, suc, ◌+◌, ◌*◌, ◌≤◌, ◌≡◌, refl, Bool, true, false, List, [], ◌∷◌, length, ltb, leb, All,
  count_if, count_if-le-length, arith, ap, sym, Bool-cases, inl, inr,
}
use retail_segmentation.Throttle.OrderedDict.{Buckets, get}
use retail_segmentation.Throttle.{Config, found, live, second, window}

-- A failure counts until `window_seconds` have passed since.
abbrev pub is_recent : Config → ℕ → ℕ → Bool
is_recent cfg now failed_at = ltb now (failed_at + cfg.window_seconds * second)

-- How many failures of a key are within the window.
abbrev pub failures : Config → ℕ → Buckets → ℕ → ℕ
failures cfg now d key = count_if (is_recent cfg now) (found (get key d))

-- Failures in the order of their times.
abbrev pub InOrder : List ℕ → Type 0
InOrder [] = Unit
InOrder (a ∷ attempts) = All (λ b. a ≤ b) attempts × InOrder attempts

all_recent :
    (cfg : Config) (now a : ℕ) (attempts : List ℕ)
    → is_recent cfg now a ≡ true
    → All (λ b. a ≤ b) attempts
    → count_if (is_recent cfg now) attempts ≡ length attempts
all_recent cfg now a [] h l = refl
all_recent cfg now a (b ∷ attempts) h l =
    let new : is_recent cfg now b ≡ true = ground arith in
    rw new (ap suc (all_recent cfg now a attempts h l.1))

-- Pruning from the left leaves every failure within the window, and of a deque in order no other.
pub length-live :
    (cfg : Config) (now : ℕ) (attempts : List ℕ)
    → InOrder attempts
    → length (live cfg now attempts) ≡ count_if (is_recent cfg now) attempts
unfolding live
length-live cfg now [] o = refl
length-live cfg now (a ∷ attempts) o = elim (Bool-cases (is_recent cfg now a)) [
  | inl new ↦
      let kept : leb (a + window cfg) now ≡ false = ground arith in
      rw (kept, new) (ap suc (sym (all_recent cfg now a attempts new o.0)))
  | inr old ↦
      let gone : leb (a + window cfg) now ≡ true = ground arith in
      rw (gone, old) (length-live cfg now attempts o.1)
]

pub length-live_least :
    (cfg : Config) (now : ℕ) (attempts : List ℕ)
    → count_if (is_recent cfg now) attempts ≤ length (live cfg now attempts)
unfolding live
length-live_least cfg now [] = omega arith
length-live_least cfg now (a ∷ attempts) = elim (Bool-cases (leb (a + window cfg) now)) [
  | inl gone ↦
      let old : is_recent cfg now a ≡ false = ground arith in
      rw (gone, old) (length-live_least cfg now attempts)
  | inr kept ↦ rw kept (count_if-le-length (is_recent cfg now) (a ∷ attempts))
]
