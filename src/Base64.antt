-- ===== src/Base64.antt =====
-- src/base64.c: the decoder of the keys of a configuration. A refusal (-1) is `none`; what a refused
-- call has stored in the buffer is not modelled.
pub mod RoundTrip
pub mod Bounds
mod Tests
use awg2_webui.Base.{
  ℕ, zero, suc, ◌+◌, ◌-◌, ◌*◌, ◌/◌, ◌%◌, Bool, true, false, ◌&&◌, Option, some, none, List, [], ◌∷◌,
  ltb, leb, ◌==◌, if◌then◌else◌, length, shl, shr, u8,
}

-- `b64_val`
unfoldable pub b64_val : ℕ → Option ℕ
b64_val c =
    if leb b'A' c && leb c b'Z'
    then some (c - b'A')
    else if leb b'a' c && leb c b'z'
    then some (c - b'a' + 26)
    else if leb b'0' c && leb c b'9'
    then some (c - b'0' + 52)
    else if c == b'+'
    then some 62
    else if c == b'/'
    then some 63
    else none

abbrev pub is_empty : List ℕ → Bool
is_empty [] = true
is_empty (_ ∷ _) = false

-- `while (inlen > 0 && in[inlen - 1] == '=') inlen--`: the input without the padding at its end.
unfoldable pub strip_padding : List ℕ → List ℕ
strip_padding [] = []
strip_padding (x ∷ xs) =
    let rest = strip_padding xs in if is_empty rest && x == b'=' then [] else x ∷ rest

-- The word of up to four values; their bits do not overlap, so `|` is a sum.
abbrev pub word : ℕ → ℕ → ℕ → ℕ → ℕ
word a b c d = shl a 18 + shl b 12 + shl c 6 + d

-- One step of the loop over groups of four, before the rest of the output.
unfoldable pub group : Option ℕ → Option ℕ → Option ℕ → Option ℕ → Option (List ℕ) → Option (List ℕ)
group (some a) (some b) (some c) (some d) (some out) =
    some (u8 (shr (word a b c d) 16) ∷ u8 (shr (word a b c d) 8) ∷ u8 (word a b c d) ∷ out)
group (some a) (some b) (some c) (some d) none = none
group (some a) (some b) (some c) none out = none
group (some a) (some b) none d out = none
group (some a) none c d out = none
group none b c d out = none

-- `rem == 2`
unfoldable pub last_two : Option ℕ → Option ℕ → Option (List ℕ)
last_two (some a) (some b) = some (u8 (shr (word a b 0 0) 16) ∷ [])
last_two (some a) none = none
last_two none b = none

-- `rem == 3`
unfoldable pub last_three : Option ℕ → Option ℕ → Option ℕ → Option (List ℕ)
last_three (some a) (some b) (some c) =
    some (u8 (shr (word a b c 0) 16) ∷ u8 (shr (word a b c 0) 8) ∷ [])
last_three (some a) (some b) none = none
last_three (some a) none c = none
last_three none b c = none

unfoldable pub decode_groups : List ℕ → Option (List ℕ)
unfolding group last_two last_three b64_val
decode_groups [] = some []
decode_groups (a ∷ []) = some []
decode_groups (a ∷ b ∷ []) = last_two (b64_val a) (b64_val b)
decode_groups (a ∷ b ∷ c ∷ []) = last_three (b64_val a) (b64_val b) (b64_val c)
decode_groups (a ∷ b ∷ c ∷ d ∷ rest) =
    group (b64_val a) (b64_val b) (b64_val c) (b64_val d) (decode_groups rest)

-- `base64_decode`
unfoldable pub base64_decode : List ℕ → ℕ → Option (List ℕ)
unfolding strip_padding decode_groups
base64_decode input outmax =
    let stripped = strip_padding input in
    if length stripped % 4 == 1
    then none
    else if ltb outmax (length stripped * 3 / 4)
    then none
    else decode_groups stripped
