-- ===== src/Base64/RoundTrip.antt =====
-- The decoder of src/base64.c and the encoding of RFC 4648, section 4.
use awg2_webui.Base.{
  ℕ, zero, suc, ◌+◌, ◌-◌, ◌*◌, ◌/◌, ◌%◌, ◌≤◌, ◌<◌, ◌≡◌, ◌≢◌, refl, ap, ◌∙◌, false, Option, some,
  none, List, [], ◌∷◌, ◌++◌, ltb, ◌==◌, if◌then◌else◌, length, replicate, All, IsBytes, shr, u8,
  arith,
}
use awg2_webui.Base64.{
  b64_val, strip_padding, word, group, last_two, last_three, decode_groups, base64_decode,
}

-- The alphabet of the encoding.
unfoldable pub b64_char : ℕ → ℕ
b64_char v =
    if ltb v 26
    then b'A' + v
    else if ltb v 52
    then b'a' + (v - 26)
    else if ltb v 62
    then b'0' + (v - 52)
    else if v == 62
    then b'+'
    else b'/'

-- The characters of the encoding, before the padding.
unfoldable pub encode_body : List ℕ → List ℕ
unfolding b64_char
encode_body [] = []
encode_body (x ∷ []) = b64_char (x / 4) ∷ b64_char (x % 4 * 16) ∷ []
encode_body (x ∷ y ∷ []) =
    b64_char (x / 4) ∷ b64_char (x % 4 * 16 + y / 16) ∷ b64_char (y % 16 * 4) ∷ []
encode_body (x ∷ y ∷ z ∷ rest) =
    b64_char (x / 4)
    ∷ b64_char (x % 4 * 16 + y / 16)
    ∷ b64_char (y % 16 * 4 + z / 64)
    ∷ b64_char (z % 64)
    ∷ encode_body rest

-- The padding that makes the length a multiple of four.
abbrev pub padding : ℕ → ℕ
padding n = (3 - n % 3) % 3

unfoldable pub base64_encode : List ℕ → List ℕ
unfolding encode_body
base64_encode bytes = encode_body bytes ++ replicate (padding (length bytes)) b'='

b64_val-b64_char : (v : ℕ) → v < 64 → b64_val (b64_char v) ≡ some v
unfolding b64_val b64_char
b64_val-b64_char v lt = ground arith

abbrev IsText : ℕ → Type 0
IsText c = (c == b'=') ≡ false

b64_char-IsText : (v : ℕ) → IsText (b64_char v)
unfolding b64_char
b64_char-IsText v = ground arith

strip_padding-replicate : (n : ℕ) → strip_padding (replicate n b'=') ≡ []
unfolding strip_padding
strip_padding-replicate zero = refl
strip_padding-replicate (suc n) = rw (strip_padding-replicate n) refl

strip_padding-append :
    (xs : List ℕ) (n : ℕ) → All IsText xs → strip_padding (xs ++ replicate n b'=') ≡ xs
unfolding strip_padding
strip_padding-append [] n h = strip_padding-replicate n
strip_padding-append (x ∷ xs) n (t, h) = rw (strip_padding-append xs n h, t) (ground arith)

encode_body-IsText : (bytes : List ℕ) → All IsText (encode_body bytes)
unfolding encode_body
encode_body-IsText [] = tt
encode_body-IsText (x ∷ []) = (b64_char-IsText (x / 4), (b64_char-IsText (x % 4 * 16), tt))
encode_body-IsText (x ∷ y ∷ []) = (
  b64_char-IsText (x / 4),
  (b64_char-IsText (x % 4 * 16 + y / 16), (b64_char-IsText (y % 16 * 4), tt)),
)
encode_body-IsText (x ∷ y ∷ z ∷ rest) = (
  b64_char-IsText (x / 4),
  (
    b64_char-IsText (x % 4 * 16 + y / 16),
    (b64_char-IsText (y % 16 * 4 + z / 64), (b64_char-IsText (z % 64), encode_body-IsText rest)),
  ),
)

last_three_lem :
    (x y : ℕ)
    → x < 256
    → y < 256
    → last_three (some (x / 4)) (some (x % 4 * 16 + y / 16)) (some (y % 16 * 4)) ≡ some (x ∷ y ∷ [])
unfolding last_three
last_three_lem x y hx hy =
    let first : u8 (shr (word (x / 4) (x % 4 * 16 + y / 16) (y % 16 * 4) 0) 16) ≡ x = omega arith in
    let second : u8 (shr (word (x / 4) (x % 4 * 16 + y / 16) (y % 16 * 4) 0) 8) ≡ y = omega arith in
    rw (first, second) refl

group_lem :
    (x y z : ℕ) (rest : List ℕ)
    → x < 256
    → y < 256
    → z < 256
    → group
        (some (x / 4))
        (some (x % 4 * 16 + y / 16))
        (some (y % 16 * 4 + z / 64))
        (some (z % 64))
        (some rest)
      ≡ some (x ∷ y ∷ z ∷ rest)
unfolding group
group_lem x y z rest hx hy hz =
    let first : u8 (shr (word (x / 4) (x % 4 * 16 + y / 16) (y % 16 * 4 + z / 64) (z % 64)) 16)
        ≡ x =
      omega arith in
    let second : u8 (shr (word (x / 4) (x % 4 * 16 + y / 16) (y % 16 * 4 + z / 64) (z % 64)) 8)
        ≡ y =
      omega arith in
    let third : u8 (word (x / 4) (x % 4 * 16 + y / 16) (y % 16 * 4 + z / 64) (z % 64)) ≡ z =
      omega arith in
    rw (first, second, third) refl

decode_groups-encode_body :
    (bytes : List ℕ) → IsBytes bytes → decode_groups (encode_body bytes) ≡ some bytes
unfolding decode_groups encode_body
decode_groups-encode_body [] h = refl
decode_groups-encode_body (x ∷ []) (hx, _) =
    let v0 : b64_val (b64_char (x / 4)) ≡ some (x / 4) = b64_val-b64_char (x / 4) (omega arith) in
    let v1 : b64_val (b64_char (x % 4 * 16)) ≡ some (x % 4 * 16) =
      b64_val-b64_char (x % 4 * 16) (omega arith) in
    rw (v0, v1) (unfold last_two in ap (λ b. some (b ∷ [])) (omega arith))
decode_groups-encode_body (x ∷ y ∷ []) (hx, (hy, _)) =
    rw
      (
        b64_val-b64_char (x / 4) (omega arith),
        b64_val-b64_char (x % 4 * 16 + y / 16) (omega arith),
        b64_val-b64_char (y % 16 * 4) (omega arith),
      )
      (last_three_lem x y hx hy)
decode_groups-encode_body (x ∷ y ∷ z ∷ rest) (hx, (hy, (hz, h))) =
    rw
      (
        b64_val-b64_char (x / 4) (omega arith),
        b64_val-b64_char (x % 4 * 16 + y / 16) (omega arith),
        b64_val-b64_char (y % 16 * 4 + z / 64) (omega arith),
        b64_val-b64_char (z % 64) (omega arith),
        decode_groups-encode_body rest h,
      )
      (group_lem x y z rest hx hy hz)

length-encode_body :
    (bytes : List ℕ)
    → (length (encode_body bytes) * 3 / 4 ≡ length bytes) × (length (encode_body bytes) % 4 ≢ 1)
unfolding encode_body
length-encode_body [] = (omega arith, omega arith)
length-encode_body (x ∷ []) = (omega arith, omega arith)
length-encode_body (x ∷ y ∷ []) = (omega arith, omega arith)
length-encode_body (x ∷ y ∷ z ∷ rest) =
    let (size, rem) = length-encode_body rest in (omega arith, omega arith)

guards_pass :
    (n m outmax : ℕ) (result : Option (List ℕ))
    → n * 3 / 4 ≡ m
    → n % 4 ≢ 1
    → m ≤ outmax
    → (if n % 4 == 1 then none else if ltb outmax (n * 3 / 4) then none else result) ≡ result
guards_pass n m outmax result size rem fits = ground arith

-- Decoding the encoding of a byte string gives the string back, when the buffer holds it.
pub base64_decode-base64_encode :
    (bytes : List ℕ) (outmax : ℕ)
    → IsBytes bytes
    → length bytes ≤ outmax
    → base64_decode (base64_encode bytes) outmax ≡ some bytes
unfolding base64_decode base64_encode
base64_decode-base64_encode bytes outmax h fits =
    rw
      (strip_padding-append (encode_body bytes) (padding (length bytes)) (encode_body-IsText bytes))
      (guards_pass (length (encode_body bytes)) (length bytes) outmax
          (decode_groups (encode_body bytes)) (length-encode_body bytes).0
          (length-encode_body bytes).1 fits
        ∙ decode_groups-encode_body bytes h)
