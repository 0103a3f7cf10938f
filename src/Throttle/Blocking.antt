-- ===== src/Throttle/Blocking.antt =====
-- What `check` of web/services/login_throttle.py answers.
use retail_segmentation.Prelude.{
  ℕ, ◌+◌, ◌≤◌, ◌≡◌, refl, Bool, true, false, not, Option, none, some, List, [], ◌∷◌, length,
  if◌then◌else◌, ltb, leb, ◌==◌, any, ◌||◌, arith, ◌∙◌, sym, Bool-cases, inl, inr,
}
use retail_segmentation.Throttle.OrderedDict.{
  Buckets, get, pop, move_to_end, set_default, put, get-pop, get-put, get-move_to_end,
  get-set_default, or_else, replaced,
}
use retail_segmentation.Throttle.{
  Config, window, live, found, renew, prune, retry_one, check_all, check,
}

-- The failures of a bucket that a check at `now` still counts.
abbrev pub counted : Config → ℕ → ℕ → Buckets → List ℕ
counted cfg now key d = live cfg now (found (get key d))

pub found-set_default : (j k : ℕ) (d : Buckets) → found (get j (set_default k d)) ≡ found (get j d)
found-set_default j k d = rw (get-set_default j k d) (by_cases (get j d) (k == j))
  where
    by_cases :
        (o : Option (List ℕ)) (b : Bool) → found (or_else o (if b then some [] else none)) ≡ found o
    by_cases none true = refl
    by_cases none false = refl
    by_cases (some v) b = refl

pub prune-counted :
    (cfg : Config) (key now : ℕ) (d : Buckets) → (prune cfg key now d).1 ≡ counted cfg now key d
unfolding prune
prune-counted cfg key now d = rw (found-set_default key key d) refl

found-renew :
    (j k : ℕ) (attempts : List ℕ) (d : Buckets)
    → ((k == j) ≡ true → found (get j d) ≡ attempts)
    → found (get j (renew k attempts d)) ≡ found (get j d)
found-renew j k (a ∷ attempts) d written = refl
found-renew j k [] d written =
    found-set_default j k (pop k d)
    ∙ rw (get-pop j k d) (elim (Bool-cases (k == j)) [
      | inl same ↦ rw same (sym (written same))
      | inr other ↦ rw other refl
    ])

live-live :
    (cfg : Config) (now : ℕ) (attempts : List ℕ)
    → live cfg now (live cfg now attempts) ≡ live cfg now attempts
unfolding live
live-live cfg now [] = refl
live-live cfg now (a ∷ attempts) = elim (Bool-cases (leb (a + window cfg) now)) [
  | inl old ↦ rw old (live-live cfg now attempts)
  | inr new ↦ rw (new, new) refl
]

found-put_end :
    (j k : ℕ) (attempts : List ℕ) (d : Buckets)
    → found (get j (move_to_end k (put k attempts (set_default k d))))
      ≡ (if k == j then attempts else found (get j d))
found-put_end j k attempts d =
    rw
      (
        get-move_to_end j k (put k attempts (set_default k d)),
        get-put j k attempts (set_default k d),
        get-set_default j k d,
      )
      (by_cases (get j d) (k == j))
  where
    by_cases :
        (o : Option (List ℕ)) (b : Bool)
        → found (
            if b
            then replaced attempts (or_else o (if b then some [] else none))
            else or_else o (if b then some [] else none))
          ≡ (if b then attempts else found o)
    by_cases none true = refl
    by_cases none false = refl
    by_cases (some v) true = refl
    by_cases (some v) false = refl

found-prune :
    (cfg : Config) (j k now : ℕ) (d : Buckets)
    → found (get j (prune cfg k now d).0)
      ≡ (if k == j then counted cfg now k d else found (get j d))
unfolding prune
found-prune cfg j k now d =
    let attempts = live cfg now (found (get k (set_default k d))) in
    let e : attempts ≡ counted cfg now k d = rw (found-set_default k k d) refl in
    found-renew j k attempts (move_to_end k (put k attempts (set_default k d)))
      (λ same. found-put_end j k attempts d ∙ rw same refl)
    ∙ found-put_end j k attempts d
    ∙ rw e refl

-- Pruning one bucket changes what no check at that time counts.
pub counted-prune :
    (cfg : Config) (j k now : ℕ) (d : Buckets)
    → counted cfg now j (prune cfg k now d).0 ≡ counted cfg now j d
counted-prune cfg j k now d = rw (found-prune cfg j k now d) (elim (Bool-cases (k == j)) [
  | inl same ↦ let e : k ≡ j = ground arith in rw same (rw e (live-live cfg now (found (get j d))))
  | inr other ↦ rw other refl
])

-- Whether a key alone is enough to block a request.
abbrev pub blocking : Config → ℕ → Buckets → ℕ → Bool
blocking cfg now d key = not (ltb (length (counted cfg now key d)) cfg.max_attempts)

retry_one_lem :
    (cfg : Config) (now : ℕ) (attempts : List ℕ) (retry : ℕ)
    → 1 ≤ cfg.max_attempts
    → not (retry_one cfg now attempts retry == 0)
      ≡ not (retry == 0) || not (ltb (length attempts) cfg.max_attempts)
retry_one_lem cfg now [] retry positive = ground arith
retry_one_lem cfg now (a ∷ attempts) retry positive =
    elim (Bool-cases (ltb (length (a ∷ attempts)) cfg.max_attempts)) [
      | inl few ↦ rw few (ground arith)
      | inr many ↦ rw many (grind arith)
    ]

pub any-ext : (p q : ℕ → Bool) (xs : List ℕ) → ((x : ℕ) → p x ≡ q x) → any p xs ≡ any q xs
any-ext p q [] same = refl
any-ext p q (x ∷ xs) same = rw (same x, any-ext p q xs same) refl

blocking-prune :
    (cfg : Config) (now key : ℕ) (d : Buckets) (j : ℕ)
    → blocking cfg now (prune cfg key now d).0 j ≡ blocking cfg now d j
blocking-prune cfg now key d j = rw (counted-prune cfg j key now d) refl

or_assoc : (a b c : Bool) → (a || b) || c ≡ a || (b || c)
or_assoc a b c = ground arith

check_all_lem :
    (cfg : Config) (now : ℕ) (keys : List ℕ) (retry : ℕ) (d : Buckets)
    → 1 ≤ cfg.max_attempts
    → not ((check_all cfg now keys retry d).0 == 0)
      ≡ not (retry == 0) || any (blocking cfg now d) keys
unfolding check_all
check_all_lem cfg now [] retry d positive = ground arith
check_all_lem cfg now (key ∷ keys) retry d positive =
    check_all_lem cfg now keys (retry_one cfg now (prune cfg key now d).1 retry)
      (prune cfg key now d).0 positive
    ∙ rw
        (
          any-ext (blocking cfg now (prune cfg key now d).0) (blocking cfg now d) keys
              (blocking-prune cfg now key d),
          prune-counted cfg key now d,
          retry_one_lem cfg now (counted cfg now key d) retry positive,
        )
        (or_assoc (not (retry == 0)) (blocking cfg now d key) (any (blocking cfg now d) keys))

-- With a limit of at least one attempt, a request is blocked exactly when the attempts that the pruning of one of
-- its keys leaves reach the limit.
pub check-blocking :
    (cfg : Config) (now : ℕ) (keys : List ℕ) (d : Buckets)
    → 1 ≤ cfg.max_attempts
    → (check cfg now keys d).0.blocked ≡ any (blocking cfg now d) keys
unfolding check
check-blocking cfg now keys d positive = check_all_lem cfg now keys 0 d positive
