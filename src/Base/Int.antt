-- ===== src/Base/Int.antt =====
-- The `int` of the source: signed integers over the native numbers, and the range of 32 bits.
use Prim.Native.Nat.{ℕ, ◌-◌, ◌%◌, ◌^◌, ◌<◌}
use mathlib.Core.Bool.{Bool}
use native.Mathlib.Decide.{ℕ_discrete}
use matter_lwm2m_bridge.Base.Tests.{ltb}

-- `negsuc n` is -(n + 1).
pub data ℤ : Type 0 where
  pos : ℕ → ℤ
  negsuc : ℕ → ℤ

unfoldable pub ℤ_discrete : Discrete ℤ
unfolding ℕ_discrete
ℤ_discrete = hlevel ℕ_discrete

-- The value that the functions of the source return for "not found".
abbrev pub minus_one : ℤ
minus_one = negsuc 0

-- An `int` of 32 bits holds the values from -2^31 to 2^31 - 1.
abbrev pub IsInt32 : ℤ → Type 0
IsInt32 (pos n) = n < 2 ^ 31
IsInt32 (negsuc n) = n < 2 ^ 31

abbrev pub fits_int32 : ℤ → Bool
fits_int32 (pos n) = ltb n (2 ^ 31)
fits_int32 (negsuc n) = ltb n (2 ^ 31)

-- A value stored in `w` unsigned bits, for the conversions from `int` to an id.
abbrev pub to_unsigned : ℕ → ℤ → ℕ
to_unsigned w (pos n) = n % 2 ^ w
to_unsigned w (negsuc n) = (2 ^ w - 1) - n % 2 ^ w
