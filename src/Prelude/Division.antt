-- ===== src/Prelude/Division.antt =====
-- Division of natural numbers is monotone.
use Prim.Native.Nat.{ℕ, zero, suc, ◌/◌, ◌≤◌}
use native.Mathlib.Nat.{le-div_iff_mul-le, div-mul-le_self, div-zero, le_trans}
use native.Mathlib.Omega.{arith}

pub div_mono : (k x y : ℕ) → x ≤ y → x / k ≤ y / k
div_mono zero x y h = simp div-zero (omega arith)
div_mono (suc k) x y h =
    (le-div_iff_mul-le {k = suc k} (omega arith)).1 (le_trans (div-mul-le_self x (suc k)) h)
