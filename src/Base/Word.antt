-- ===== src/Base/Word.antt =====
-- Casts to the fixed widths, shifts, masks of low bits, and the byte orders.
use Prim.Native.Nat.{ℕ, ◌*◌, ◌/◌, ◌%◌, ◌^◌, ◌<◌}
use mathlib.Core.List.{List, [], ◌∷◌}
use awg2_webui.Base.Seq.{get_or, All}

abbrev pub u8 : ℕ → ℕ
u8 n = n % 2 ^ 8

abbrev pub u16 : ℕ → ℕ
u16 n = n % 2 ^ 16

abbrev pub u32 : ℕ → ℕ
u32 n = n % 2 ^ 32

abbrev pub u64 : ℕ → ℕ
u64 n = n % 2 ^ 64

abbrev pub shr : ℕ → ℕ → ℕ
shr x k = x / 2 ^ k

abbrev pub shl : ℕ → ℕ → ℕ
shl x k = x * 2 ^ k

-- `x & (2^k - 1)`
abbrev pub low_bits : ℕ → ℕ → ℕ
low_bits x k = x % 2 ^ k

abbrev pub byte_at : List ℕ → ℕ → ℕ
byte_at xs i = get_or xs i 0

abbrev pub IsByte : ℕ → Type 0
IsByte b = b < 256

abbrev pub IsBytes : List ℕ → Type 0
IsBytes = All IsByte

-- A big-endian 16-bit word at the head of a buffer.
abbrev pub be16 : ℕ → List ℕ
be16 v = u8 (shr v 8) ∷ u8 v ∷ []

-- A big-endian 32-bit word.
abbrev pub be32 : ℕ → List ℕ
be32 v = u8 (shr v 24) ∷ u8 (shr v 16) ∷ u8 (shr v 8) ∷ u8 v ∷ []

-- A little-endian 32-bit word, as `memcpy` lays it out on the machines that the proxy runs on.
abbrev pub le32 : ℕ → List ℕ
le32 v = u8 v ∷ u8 (shr v 8) ∷ u8 (shr v 16) ∷ u8 (shr v 24) ∷ []
