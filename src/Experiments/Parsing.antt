-- ===== src/Experiments/Parsing.antt =====
-- web/parsing.py: the numbers and the dates of a form, over the code points of a text. A date is the number that its
-- eight digits write, which keeps the order of dates.
use retail_segmentation.Prelude.{
  ℕ, ◌+◌, ◌-◌, ◌*◌, ◌/◌, ◌%◌, ◌≤◌, ◌≡◌, refl, Bool, true, false, ◌&&◌, ◌||◌, not, Option, none,
  some, List, [], ◌∷◌, arith, leb, leb→le, true_≢_false, sym, ◌==◌, if◌then◌else◌,
}

abbrev pub int_max : ℕ
int_max = 2147483647

abbrev pub date_min : ℕ
date_min = 19000101

abbrev pub date_max : ℕ
date_max = 21001231

abbrev pub is_digit : ℕ → Bool
is_digit c = leb b'0' c && leb c b'9'

-- The value of a text of ASCII digits, after those that make `n`.
unfoldable pub digits_from : ℕ → List ℕ → Option ℕ
digits_from n [] = some n
digits_from n (c ∷ text) =
    let rest = digits_from (n * 10 + (c - b'0')) text in if is_digit c then rest else none

abbrev pub at_most : ℕ → Option ℕ → Option ℕ
at_most maximum none = none
at_most maximum (some n) = if leb n maximum then some n else none

-- An empty text has no digit.
unfoldable pub whole_number : List ℕ → ℕ → Option ℕ
unfolding digits_from
whole_number [] maximum = none
whole_number (c ∷ text) maximum = at_most maximum (digits_from 0 (c ∷ text))

abbrev pub is_leap : ℕ → Bool
is_leap y = (y % 4 == 0 && not (y % 100 == 0)) || y % 400 == 0

abbrev pub days_in_month : ℕ → ℕ → ℕ
days_in_month y m =
    if m == 2
    then if is_leap y then 29 else 28
    else if m == 4 || m == 6 || m == 9 || m == 11
    then 30
    else 31

-- What `date.fromisoformat` accepts, and the calendar that the forms offer.
abbrev pub is_calendar : ℕ → ℕ → ℕ → Bool
is_calendar y m d = leb 1 y && leb 1 m && leb m 12 && leb 1 d && leb d (days_in_month y m)

abbrev pub date_number : ℕ → ℕ → ℕ → ℕ
date_number y m d = y * 10000 + m * 100 + d

abbrev pub offered : ℕ → ℕ → ℕ → Option ℕ
offered y m d =
    if is_calendar y m d && leb date_min (date_number y m d) && leb (date_number y m d) date_max
    then some (date_number y m d)
    else none

abbrev pub digit : ℕ → ℕ
digit c = c - b'0'

unfoldable pub iso_date : List ℕ → Option ℕ
iso_date (y1 ∷ y2 ∷ y3 ∷ y4 ∷ s1 ∷ m1 ∷ m2 ∷ s2 ∷ d1 ∷ d2 ∷ []) =
    if is_digit y1
      && is_digit y2
      && is_digit y3
      && is_digit y4
      && s1 == b'-'
      && is_digit m1
      && is_digit m2
      && s2 == b'-'
      && is_digit d1
      && is_digit d2
    then offered (digit y1 * 1000 + digit y2 * 100 + digit y3 * 10 + digit y4)
        (digit m1 * 10 + digit m2) (digit d1 * 10 + digit d2)
    else none
iso_date _ = none

-- The text of a date.
abbrev pub iso_text : ℕ → ℕ → ℕ → List ℕ
iso_text y m d =
    (b'0' + y / 1000)
    ∷ (b'0' + y / 100 % 10)
    ∷ (b'0' + y / 10 % 10)
    ∷ (b'0' + y % 10)
    ∷ b'-'
    ∷ (b'0' + m / 10)
    ∷ (b'0' + m % 10)
    ∷ b'-'
    ∷ (b'0' + d / 10)
    ∷ (b'0' + d % 10)
    ∷ []

year_digits :
    (y : ℕ)
    → y ≤ 2100
    → digit (b'0' + y / 1000) * 1000
        + digit (b'0' + y / 100 % 10) * 100
        + digit (b'0' + y / 10 % 10) * 10
        + digit (b'0' + y % 10)
      ≡ y
year_digits y h = omega arith

two_digits : (m : ℕ) → m ≤ 31 → digit (b'0' + m / 10) * 10 + digit (b'0' + m % 10) ≡ m
two_digits m h = omega arith

both_true : (a b : Bool) → (a && b) ≡ true → (a ≡ true) × (b ≡ true)
both_true true b h = (refl, h)
both_true false b h = absurd (true_≢_false (sym h))

is_digit_of : (t : ℕ) → t ≤ 9 → is_digit (b'0' + t) ≡ true
is_digit_of t h = ground (arith, h)

le_leb : (a b : ℕ) → a ≤ b → leb a b ≡ true
le_leb a b h = ground (arith, h)

days_in_month_le : (y m : ℕ) → days_in_month y m ≤ 31
days_in_month_le y m = ground arith

calendar_bounds : (y m d : ℕ) → is_calendar y m d ≡ true → (1 ≤ m) × (m ≤ 12) × (1 ≤ d) × (d ≤ 31)
calendar_bounds y m d h =
    let e = days_in_month_le y m in
    let (h1, last) =
      both_true (leb 1 y && leb 1 m && leb m 12 && leb 1 d) (leb d (days_in_month y m)) h in
    let (h2, g) = both_true (leb 1 y && leb 1 m && leb m 12) (leb 1 d) h1 in
    let (h3, c) = both_true (leb 1 y && leb 1 m) (leb m 12) h2 in
    let (a, b) = both_true (leb 1 y) (leb 1 m) h3 in
    (leb→le 1 m b, leb→le m 12 c, leb→le 1 d g, omega (arith, leb→le d (days_in_month y m) last, e))

-- The text of every day of the calendar from 1900 to 2100 is read back as that day.
pub iso_date-text :
    (y m d : ℕ)
    → 1900 ≤ y
    → y ≤ 2100
    → is_calendar y m d ≡ true
    → iso_date (iso_text y m d) ≡ some (date_number y m d)
unfolding iso_date
iso_date-text y m d low high valid =
    let bounds = calendar_bounds y m d valid in
    rw
      (
        is_digit_of (y / 1000) (omega arith),
        is_digit_of (y / 100 % 10) (omega arith),
        is_digit_of (y / 10 % 10) (omega arith),
        is_digit_of (y % 10) (omega arith),
        is_digit_of (m / 10) (omega (arith, bounds)),
        is_digit_of (m % 10) (omega arith),
        is_digit_of (d / 10) (omega (arith, bounds)),
        is_digit_of (d % 10) (omega arith),
        year_digits y high,
        two_digits m (omega (arith, bounds)),
        two_digits d (omega (arith, bounds)),
        valid,
        le_leb date_min (date_number y m d) (omega (arith, bounds)),
        le_leb (date_number y m d) date_max (omega (arith, bounds)),
      )
      refl
