-- ===== src/Floats.antt =====
-- Python's floats: a double is its 64-bit pattern, and the arithmetic on patterns, which the processor
-- supplies, is a parameter of every definition that computes with floats.
use retail_segmentation.Prelude.{
  ℕ, ◌/◌, ◌%◌, ◌^◌, Bool, not, ◌==◌, ◌||◌, List, [], ◌∷◌, if◌then◌else◌,
}

abbrev pub Float : Type 0
Float = ℕ

-- Neither an infinity nor a NaN: the exponent is not all ones.
abbrev pub is_finite : Float → Bool
is_finite x = not ((x / 2 ^ 52) % 2 ^ 11 == 2047)

pub record FloatOps : Type 0 where
  pub zero : Float
  pub one : Float
  pub minus_one : Float
  pub infinity : Float
  pub of_int : ℕ → Float
  -- `float` of a Decimal, given in cents
  pub of_cents : ℕ → Float
  -- `int` of a float that is not negative
  pub trunc : Float → ℕ
  pub add : Float → Float → Float
  pub sub : Float → Float → Float
  pub mul : Float → Float → Float
  pub div : Float → Float → Float
  pub neg : Float → Float
  -- `round(x, 6)`
  pub round6 : Float → Float
  -- `x ** 2`
  pub square : Float → Float
  -- `math.dist` of two points of three coordinates
  pub dist : Float × Float × Float → Float × Float × Float → Float
  -- the built-in `sum`
  pub sum : List Float → Float
  -- `math.fsum`
  pub fsum : List Float → Float
  pub lt : Float → Float → Bool
  pub eq : Float → Float → Bool

module _ (ops : FloatOps) where
  abbrev pub le : Float → Float → Bool
  le a b = ops.lt a b || ops.eq a b

  -- `min` and `max` of a sequence: the first of the least, or of the greatest.
  abbrev pub min_of : Float → List Float → Float
  min_of m [] = m
  min_of m (x ∷ xs) = min_of (if ops.lt x m then x else m) xs

  abbrev pub max_of : Float → List Float → Float
  max_of m [] = m
  max_of m (x ∷ xs) = max_of (if ops.lt m x then x else m) xs
