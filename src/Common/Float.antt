-- ===== src/Common/Float.antt =====
-- Python's `float`.
use Prim.Native.Nat.{ℕ, ◌^◌}
use mathlib.Core.Bool.{Bool, true, false, not, ◌&&◌, ◌||◌}
use elowyn_assist.Common.Tests.{leb, ◌==◌}

-- A `float` between or outside 0 and 1: every finite double is a whole number of units of 2^-1074.
pub data Float : Type 0 where
  finite : (negative : Bool) → (units : ℕ) → Float
  nan : Float

abbrev pub float_one : ℕ
float_one = 2 ^ 1074

-- `0 <= x <= 1`.
unfoldable pub in_unit_interval : Float → Bool
in_unit_interval (finite negative units) = (not negative || units == 0) && leb units float_one
in_unit_interval nan = false

abbrev same_sign : Bool → Bool → Bool
same_sign true b = b
same_sign false b = not b

-- `a == b`: a NaN is equal to nothing, and the two zeros are equal.
abbrev pub same_float : Float → Float → Bool
same_float (finite a m) (finite b n) = m == n && ((m == 0) || same_sign a b)
same_float (finite a m) nan = false
same_float nan y = false
