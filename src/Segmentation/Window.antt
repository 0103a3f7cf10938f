-- ===== src/Segmentation/Window.antt =====
-- `parse_window` of web/services/segmentation.py, over the code points of the submitted text. Of the
-- texts that Python's `int` reads, those in ASCII are modelled.
use mathlib.Core.List.{reverse}
use retail_segmentation.Prelude.{
  ℕ, zero, suc, ◌+◌, ◌-◌, ◌*◌, ◌/◌, ◌%◌, ◌≤◌, ◌++◌, ◌≡◌, refl, Bool, true, false, ◌&&◌, ◌||◌, not,
  Option, none, some, List, [], ◌∷◌, arith, Result, ok, err, ◌==◌, leb, if◌then◌else◌, ℤ, pos,
  negsuc,
}
use retail_segmentation.Segmentation.Domain.{Error, window_not_a_number, window_out_of_range}

abbrev pub default_window_days : ℕ
default_window_days = 180

abbrev pub min_window_days : ℕ
min_window_days = 1

abbrev pub max_window_days : ℕ
max_window_days = 3650

-- `str.isspace` in ASCII
unfoldable pub is_space : ℕ → Bool
is_space c = (leb 9 c && leb c 13) || (leb 28 c && leb c 32)

unfoldable pub drop_space : List ℕ → List ℕ
unfolding is_space
drop_space [] = []
drop_space (c ∷ text) = let rest = drop_space text in if is_space c then rest else c ∷ text

unfoldable pub strip : List ℕ → List ℕ
unfolding drop_space
strip text = reverse (drop_space (reverse (drop_space text)))

-- The digits of a literal, one underscore allowed between two of them; `after` is true after a digit.
int_digits : ℕ → Bool → List ℕ → Option ℕ
int_digits n after [] = if after then some n else none
int_digits n after (c ∷ text) =
    let more = int_digits (n * 10 + (c - b'0')) true text in
    let skip = int_digits n false text in
    if leb b'0' c && leb c b'9' then more else if c == b'_' && after then skip else none

negative : Option ℕ → Option ℤ
negative none = none
negative (some zero) = some (pos 0)
negative (some (suc n)) = some (negsuc n)

unsigned : Option ℕ → Option ℤ
unsigned none = none
unsigned (some n) = some (pos n)

-- `int(text)` for a stripped text; `none` is the ValueError.
int_of : List ℕ → Option ℤ
unfolding int_digits negative unsigned
int_of [] = none
int_of (c ∷ text) =
    if c == b'-'
    then negative (int_digits 0 false text)
    else if c == b'+'
    then unsigned (int_digits 0 false text)
    else unsigned (int_digits 0 false (c ∷ text))

in_window : ℤ → Result Error ℕ
in_window (pos days) =
    if not (leb min_window_days days && leb days max_window_days)
    then err window_out_of_range
    else ok days
in_window (negsuc _) = err window_out_of_range

checked : Option ℤ → Result Error ℕ
unfolding in_window
checked none = err window_not_a_number
checked (some days) = in_window days

unfoldable pub parse_window : Option (List ℕ) → Result Error ℕ
unfolding checked int_of strip
parse_window none = ok default_window_days
parse_window (some raw) = checked (int_of (strip raw))

checked_bounds : (o : Option ℤ) (d : ℕ) → checked o ≡ ok d → (1 ≤ d) × (d ≤ 3650)
unfolding checked
checked_bounds none d h = cc
checked_bounds (some (pos n)) d h = ground arith
checked_bounds (some (negsuc n)) d h = cc

-- Whatever is submitted, a window that is accepted is from 1 to 3650 days.
pub parse_window_bounds :
    (raw : Option (List ℕ)) (d : ℕ) → parse_window raw ≡ ok d → (1 ≤ d) × (d ≤ 3650)
unfolding parse_window
parse_window_bounds none d h = ground arith
parse_window_bounds (some raw) d h = checked_bounds (int_of (strip raw)) d h

-- A number in decimal, of at most `fuel` digits.
decimal_loop : ℕ → ℕ → List ℕ → List ℕ
decimal_loop zero n acc = acc
decimal_loop (suc fuel) n acc =
    let digits = (b'0' + n % 10) ∷ acc in
    let more = decimal_loop fuel (n / 10) digits in if n / 10 == 0 then digits else more

unfoldable pub decimal : ℕ → List ℕ
unfolding decimal_loop
decimal n = decimal_loop 20 n []

accepted_as : ℕ → Result Error ℕ → Bool
accepted_as n (ok d) = d == n
accepted_as n (err e) = false

accepted_as-ok : (n : ℕ) (r : Result Error ℕ) → accepted_as n r ≡ true → r ≡ ok n
unfolding accepted_as
accepted_as-ok n (ok d) h = ground arith
accepted_as-ok n (err e) h = cc

-- ` n ` with a space on each side
abbrev pub padded : ℕ → List ℕ
padded n = 32 ∷ (decimal n ++ 32 ∷ [])

all_accepted : ℕ → Bool
all_accepted zero = true
all_accepted (suc n) = accepted_as (suc n) (parse_window (some (padded (suc n)))) && all_accepted n

all_accepted-at :
    (m n : ℕ) → all_accepted m ≡ true → 1 ≤ n → n ≤ m → parse_window (some (padded n)) ≡ ok n
unfolding all_accepted
all_accepted-at zero n h l u = absurd (omega arith)
all_accepted-at (suc m) n h l u =
    grind
      (arith, accepted_as-ok (suc m) (parse_window (some (padded (suc m)))), all_accepted-at m n)

all_windows : all_accepted 3650 ≡ true
unfolding all_accepted accepted_as parse_window decimal
all_windows = refl

-- Every window of 1 to 3650 days is read back from its decimal text with a space on each side.
pub parse_window-decimal : (n : ℕ) → 1 ≤ n → n ≤ 3650 → parse_window (some (padded n)) ≡ ok n
parse_window-decimal n l u = all_accepted-at 3650 n all_windows l u
