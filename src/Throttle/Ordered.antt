-- ===== src/Throttle/Ordered.antt =====
-- The deques of web/services/login_throttle.py, where the methods take the lock in the order of their clock readings.
use retail_segmentation.Prelude.{
  ℕ, ◌+◌, ◌≤◌, ◌≡◌, List, [], ◌∷◌, ◌++◌, length, ltb, leb, ◌==◌, All, All-append, All-mono, arith,
  Bool-cases, Option-cases, inl, inr,
}
use retail_segmentation.Throttle.OrderedDict.{Buckets, get, pop, put, move_to_end, set_default}
use retail_segmentation.Throttle.{
  Config, check, check_all, clear, found, live, prune, record_all, record_failure, renew, retry_one,
  trim, window,
}
use retail_segmentation.Throttle.Failures.{InOrder}

module _ (P : List ℕ → Type 0) where
  -- A property of every deque of a table.
  abbrev pub Each : Buckets → Type 0
  Each = All (λ (b : ℕ × List ℕ). P b.1)

  pub Each-get : (k : ℕ) (d : Buckets) → P [] → Each d → P (found (get k d))
  unfolding get
  Each-get k [] e h = e
  Each-get k ((j, v) ∷ d) e h = elim (Bool-cases (j == k)) [
    | inl here ↦ rw here h.0
    | inr there ↦ rw there (Each-get k d e h.1)
  ]

  Each-pop : (k : ℕ) (d : Buckets) → Each d → Each (pop k d)
  unfolding pop
  Each-pop k [] h = tt
  Each-pop k ((j, v) ∷ d) h = elim (Bool-cases (j == k)) [
    | inl here ↦ rw here (Each-pop k d h.1)
    | inr there ↦ rw there (h.0, Each-pop k d h.1)
  ]

  Each-put : (k : ℕ) (v : List ℕ) (d : Buckets) → P v → Each d → Each (put k v d)
  unfolding put
  Each-put k v [] p h = tt
  Each-put k v ((j, w) ∷ d) p h = elim (Bool-cases (j == k)) [
    | inl here ↦ rw here (p, Each-put k v d p h.1)
    | inr there ↦ rw there (h.0, Each-put k v d p h.1)
  ]

  Each-end : (k : ℕ) (v : List ℕ) (d : Buckets) → P v → Each d → Each (d ++ (k, v) ∷ [])
  Each-end k v d p h = All-append (λ (b : ℕ × List ℕ). P b.1) d ((k, v) ∷ []) h (p, tt)

  Each-set_default : (k : ℕ) (d : Buckets) → P [] → Each d → Each (set_default k d)
  unfolding set_default
  Each-set_default k d e h = elim (Option-cases (get k d)) [
    | inl missing ↦ rw missing (Each-end k [] d e h)
    | inr (v, there) ↦ rw there h
  ]

  Each-move_to_end : (k : ℕ) (d : Buckets) → P [] → Each d → Each (move_to_end k d)
  unfolding move_to_end
  Each-move_to_end k d e h = elim (Option-cases (get k d)) [
    | inl missing ↦ rw missing (Each-pop k d h)
    | inr (v, there) ↦
        rw there (Each-end k v (pop k d) (rw there at (Each-get k d e h)) (Each-pop k d h))
  ]

  Each-renew : (k : ℕ) (attempts : List ℕ) (d : Buckets) → P [] → Each d → Each (renew k attempts d)
  Each-renew k [] d e h = Each-set_default k (pop k d) e (Each-pop k d h)
  Each-renew k (a ∷ attempts) d e h = h

  Each-trim : (cfg : Config) (d : Buckets) → Each d → Each (trim cfg d)
  unfolding trim
  Each-trim cfg [] h = tt
  Each-trim cfg (b ∷ d) h = elim (Bool-cases (ltb cfg.max_keys (length (b ∷ d)))) [
    | inl full ↦ rw full (Each-trim cfg d h.1)
    | inr fits ↦ rw fits h
  ]

  Each-clear : (keys : List ℕ) (d : Buckets) → Each d → Each (clear keys d)
  unfolding clear
  Each-clear [] d h = h
  Each-clear (key ∷ keys) d h = Each-clear keys (pop key d) (Each-pop key d h)

-- The failures of a deque are in order, and none is after `last`.
abbrev pub IsUntil : ℕ → List ℕ → Type 0
IsUntil last attempts = InOrder attempts × All (λ a. a ≤ last) attempts

abbrev pub IsOrdered : ℕ → Buckets → Type 0
IsOrdered last = Each (IsUntil last)

IsUntil-live :
    (cfg : Config) (now last : ℕ) (attempts : List ℕ)
    → IsUntil last attempts
    → IsUntil last (live cfg now attempts)
unfolding live
IsUntil-live cfg now last [] h = h
IsUntil-live cfg now last (a ∷ attempts) h = elim (Bool-cases (leb (a + window cfg) now)) [
  | inl gone ↦ rw gone (IsUntil-live cfg now last attempts (h.0.1, h.1.1))
  | inr kept ↦ rw kept h
]

IsUntil-append :
    (now : ℕ) (attempts : List ℕ) → IsUntil now attempts → IsUntil now (attempts ++ now ∷ [])
IsUntil-append now [] h = ((tt, tt), (omega arith, tt))
IsUntil-append now (a ∷ attempts) h =
    let rest = IsUntil-append now attempts (h.0.1, h.1.1) in
    ((All-append (λ b. a ≤ b) attempts (now ∷ []) h.0.0 (h.1.0, tt), rest.0), (h.1.0, rest.1))

later : (last now : ℕ) (d : Buckets) → last ≤ now → IsOrdered last d → IsOrdered now d
later last now d l h =
    All-mono (λ (b : ℕ × List ℕ). IsUntil last b.1) (λ (b : ℕ × List ℕ). IsUntil now b.1)
      (λ b u. (u.0, All-mono (λ a. a ≤ last) (λ a. a ≤ now) (λ a m. omega arith) b.1 u.1)) d h

prune-IsOrdered :
    (cfg : Config) (key now last : ℕ) (d : Buckets)
    → IsOrdered last d
    → IsOrdered last (prune cfg key now d).0 × IsUntil last (prune cfg key now d).1
unfolding prune
prune-IsOrdered cfg key now last d h =
    let P = IsUntil last in
    let e : P [] = (tt, tt) in
    let h1 = Each-set_default P key d e h in
    let attempts = live cfg now (found (get key (set_default key d))) in
    let fresh : P attempts =
      IsUntil-live cfg now last (found (get key (set_default key d)))
        (Each-get P key (set_default key d) e h1) in
    (
      Each-renew P key attempts (move_to_end key (put key attempts (set_default key d))) e (
          Each-move_to_end P key (put key attempts (set_default key d)) e
            (Each-put P key attempts (set_default key d) fresh h1)),
      fresh,
    )

check_all-IsOrdered :
    (cfg : Config) (now last : ℕ) (keys : List ℕ) (retry : ℕ) (d : Buckets)
    → IsOrdered last d
    → IsOrdered last (check_all cfg now keys retry d).1
unfolding check_all
check_all-IsOrdered cfg now last [] retry d h = h
check_all-IsOrdered cfg now last (key ∷ keys) retry d h =
    check_all-IsOrdered cfg now last keys (retry_one cfg now (prune cfg key now d).1 retry)
      (prune cfg key now d).0 (prune-IsOrdered cfg key now last d h).0

record_all-IsOrdered :
    (cfg : Config) (now : ℕ) (keys : List ℕ) (d : Buckets)
    → IsOrdered now d
    → IsOrdered now (record_all cfg now keys d)
unfolding record_all
record_all-IsOrdered cfg now [] d h = h
record_all-IsOrdered cfg now (key ∷ keys) d h =
    let P = IsUntil now in
    let pruned = prune-IsOrdered cfg key now now d h in
    let noted = put key ((prune cfg key now d).1 ++ now ∷ []) (prune cfg key now d).0 in
    record_all-IsOrdered cfg now keys (move_to_end key noted) (
      Each-move_to_end P key noted (tt, tt)
        (Each-put P key ((prune cfg key now d).1 ++ now ∷ []) (prune cfg key now d).0
          (IsUntil-append now (prune cfg key now d).1 pruned.1) pruned.0))

-- What the methods make of an empty table, taking the lock in the order of their clock readings; the latest
-- reading is beside the table.
pub data Used (cfg : Config) : ℕ → Buckets → Type 0 where
  fresh : {now : ℕ} {d : Buckets} → d ≡ [] → Used cfg now d
  checked :
      {last now : ℕ} {d d' : Buckets} (keys : List ℕ)
      → Used cfg last d
      → last ≤ now
      → d' ≡ (check cfg now keys d).1
      → Used cfg now d'
  failed :
      {last now : ℕ} {d d' : Buckets} (keys : List ℕ)
      → Used cfg last d
      → last ≤ now
      → d' ≡ record_failure cfg now keys d
      → Used cfg now d'
  cleared :
      {last : ℕ} {d d' : Buckets} (keys : List ℕ)
      → Used cfg last d
      → d' ≡ clear keys d
      → Used cfg last d'

-- Then every deque is in order, and holds no failure after the latest reading.
pub Used-IsOrdered : (cfg : Config) (last : ℕ) (d : Buckets) → Used cfg last d → IsOrdered last d
unfolding check record_failure
Used-IsOrdered cfg now d (Used.fresh e) = rw e tt
Used-IsOrdered cfg now d' (Used.checked {last = last} {d = d} keys u l e) = rw e (
    Each-trim (IsUntil now) cfg (check_all cfg now keys 0 d).1
      (check_all-IsOrdered cfg now now keys 0 d (later last now d l (Used-IsOrdered cfg last d u))))
Used-IsOrdered cfg now d' (Used.failed {last = last} {d = d} keys u l e) = rw e (
    Each-trim (IsUntil now) cfg (record_all cfg now keys d)
      (record_all-IsOrdered cfg now keys d (later last now d l (Used-IsOrdered cfg last d u))))
Used-IsOrdered cfg now d' (Used.cleared {d = d} keys u e) =
    rw e (Each-clear (IsUntil now) keys d (Used-IsOrdered cfg now d u))
