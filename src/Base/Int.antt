-- ===== src/Base/Int.antt =====
-- Signed integers over the native numbers, for the `int` fields of the configuration.
use Prim.Native.Nat.{ℕ}
use mathlib.Core.Bool.{Bool, true, false}
use awg2_webui.Base.Test.{ltb}

-- `negsuc n` is -(n + 1).
pub data ℤ : Type 0 where
  pos : ℕ → ℤ
  negsuc : ℕ → ℤ

abbrev pub pos_part : ℤ → ℕ
pos_part (pos n) = n
pos_part (negsuc n) = 0

-- `z < 0`
abbrev pub is_neg : ℤ → Bool
is_neg (pos n) = false
is_neg (negsuc n) = true

-- `m < z`, for a bound that is not negative.
abbrev pub exceeds : ℤ → ℕ → Bool
exceeds (pos n) m = ltb m n
exceeds (negsuc n) m = false
