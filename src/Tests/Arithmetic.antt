-- ===== src/Tests/Arithmetic.antt =====
-- An arithmetic to run the clustering with: the number n + 1 stands for n, and 0 for -1.
use mathlib.Core.List.{foldr}
use retail_segmentation.Prelude.{◌+◌, ◌-◌, ◌*◌, ◌/◌, ltb, ◌==◌, arith}
use retail_segmentation.Floats.{Float, FloatOps}
use retail_segmentation.Kmeans.Domain.{Point}
use retail_segmentation.Kmeans.Assign.{squared}
use retail_segmentation.Kmeans.Lloyd.Settled.{IsMeasured}

abbrev plus_whole : Float → Float → Float
plus_whole a b = a + b - 1

abbrev square_whole : Float → Float
square_whole a = (a - 1) * (a - 1) + 1

abbrev gap : Float → Float → Float
gap a b = (a - b) + (b - a) + 1

abbrev pub whole : FloatOps
whole = record {
  zero = 1;
  one = 2;
  minus_one = 0;
  infinity = 1000000;
  of_int = λ n. n + 1;
  of_cents = λ n. n / 100 + 1;
  trunc = λ a. a - 1;
  add = plus_whole;
  sub = gap;
  mul = λ a b. (a - 1) * (b - 1) + 1;
  div = λ a b. (a - 1) / (b - 1) + 1;
  neg = λ a. 1000000 - a;
  round6 = λ a. a;
  square = square_whole;
  dist = λ p q. plus_whole (gap p.0 q.0) (plus_whole (gap p.1 q.1) (gap p.2 q.2));
  sum = foldr plus_whole 1;
  fsum = foldr plus_whole 1;
  lt = ltb;
  eq = λ a b. a == b;
}

abbrev pub Any : Point → Type 0
Any p = Unit

pub whole-IsMeasured : IsMeasured whole Any
unfolding squared
whole-IsMeasured = record {
  above = λ p q gp gq. ground arith;
  averages = λ points assignments c m good h. tt;
}
