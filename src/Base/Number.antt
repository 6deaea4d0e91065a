-- ===== src/Base/Number.antt =====
-- JavaScript numbers, as far as the program looks at them: a finite number is an integer or lies
-- strictly between two consecutive integers. Of a fraction the model keeps its floor and whether
-- its fractional part is at least one half, which settles every test and the rounding that the
-- code makes. The two infinities and NaN are told apart.
use Prim.Native.Nat.{suc, zero}
use mathlib.Core.Bool.{Bool, true, false}
use dash_ota.Base.Tests.{if◌then◌else◌}
use dash_ota.Base.Int.{ℤ, pos, negsuc, leb_ℤ, ltb_ℤ}

pub data Number : Type 0 where
  int : ℤ → Number
  fraction : (floor : ℤ) → (half : Bool) → Number
  infinity : (negative : Bool) → Number
  nan : Number

-- `Number.isFinite`
abbrev pub is_finite : Number → Bool
is_finite (int z) = true
is_finite (fraction z h) = true
is_finite _ = false

-- `Number.isInteger`
abbrev pub is_integer : Number → Bool
is_integer (int z) = true
is_integer _ = false

abbrev pub suc_ℤ : ℤ → ℤ
suc_ℤ (pos n) = pos (suc n)
suc_ℤ (negsuc zero) = pos 0
suc_ℤ (negsuc (suc n)) = negsuc n

-- `Math.round`, which rounds a half up.
abbrev pub round : Number → Number
round (fraction z true) = int (suc_ℤ z)
round (fraction z false) = int z
round x = x

-- `z < x` for an integer `z`.
abbrev pub int_lt : ℤ → Number → Bool
int_lt z (int x) = ltb_ℤ z x
int_lt z (fraction x h) = leb_ℤ z x
int_lt z (infinity negative) = if negative then false else true
int_lt z nan = false

-- `x < z` for an integer `z`.
abbrev pub lt_int : Number → ℤ → Bool
lt_int (int x) z = ltb_ℤ x z
lt_int (fraction x h) z = ltb_ℤ x z
lt_int (infinity negative) z = negative
lt_int nan z = false

-- `Math.max(0, Math.min(100, x))`, which is NaN at NaN.
abbrev pub clamp_percentage : Number → Number
clamp_percentage nan = nan
clamp_percentage x =
    if lt_int x (pos 0) then int (pos 0) else if int_lt (pos 100) x then int (pos 100) else x
