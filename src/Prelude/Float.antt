-- ===== src/Prelude/Float.antt =====
-- Python's `float`, as far as the program compares one: a finite double is m / 2 ^ k.
use signalproject.Prelude.{ℕ, ◌^◌, Bool, false, leb}

-- `negsuc n` is -(n + 1).
pub data ℤ : Type 0 where
  pos : ℕ → ℤ
  negsuc : ℕ → ℤ

pub data Float : Type 0 where
  nan : Float
  infinity : (negative : Bool) → Float
  dyadic : (numerator : ℤ) (exponent : ℕ) → Float

-- `0.0 <= value <= 1.0`
abbrev pub in_unit_interval : Float → Bool
in_unit_interval (dyadic (pos m) k) = leb m (2 ^ k)
in_unit_interval other = false

abbrev pub one : Float
one = dyadic (pos 1) 0
