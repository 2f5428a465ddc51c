-- ===== src/Prelude/Float.antt =====
-- A Go `float64` as its bit pattern, with the language's `==`.
use Prim.Native.Nat.{ℕ, ◌%◌, ◌^◌}
use mathlib.Core.Bool.{Bool, not, ◌&&◌, ◌||◌}
use smtc_now_playing.Prelude.Tests.{ltb, ◌==◌}

abbrev pub Float64 : Type 0
Float64 = ℕ

-- The bits below the sign, and the pattern of infinity.
abbrev pub magnitude : Float64 → ℕ
magnitude a = a % 2 ^ 63

abbrev pub infinity : ℕ
infinity = 0x7ff0000000000000

-- The bits of 1.0.
abbrev pub float_one : Float64
float_one = 0x3ff0000000000000

unfoldable pub is_nan : Float64 → Bool
is_nan a = ltb infinity (magnitude a)

unfoldable pub is_finite : Float64 → Bool
is_finite a = ltb (magnitude a) infinity

-- No NaN equals anything, and the two zeros are equal.
unfoldable pub float_eq : Float64 → Float64 → Bool
unfolding is_nan
float_eq a b =
    not (is_nan a) && not (is_nan b) && (a == b || (magnitude a == 0 && magnitude b == 0))
