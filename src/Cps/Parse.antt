-- ===== src/Cps/Parse.antt =====
-- `cps_parse` of src/cps.c. A refusal (-1) is `none`.
use awg2_webui.Base.{
  ℕ, ◌+◌, ◌-◌, ◌*◌, ◌/◌, ◌%◌, Bool, not, ◌&&◌, ◌||◌, Option, some, none, List, [], ◌∷◌, ◌++◌, ltb,
  leb, ◌==◌, if◌then◌else◌, length, u16,
}
use awg2_webui.Cps.{
  Segment, static_bytes, random, random_chars, random_digits, timestamp, counter, Template,
  cps_max_size,
}

abbrev pub cps_max_segments : ℕ
cps_max_segments = 32

abbrev pub cps_max_static : ℕ
cps_max_static = 1500

unfoldable pub hex_val : ℕ → Option ℕ
hex_val c =
    if leb b'0' c && leb c b'9'
    then some (c - b'0')
    else if leb b'a' c && leb c b'f'
    then some (c - b'a' + 10)
    else if leb b'A' c && leb c b'F'
    then some (c - b'A' + 10)
    else none

-- The loop of `parse_int`, with the value so far.
unfoldable pub parse_int_from : ℕ → List ℕ → Option ℕ
parse_int_from v [] = some v
parse_int_from v (c ∷ cs) =
    let rest = parse_int_from (v * 10 + (c - b'0')) cs in
    if ltb c b'0' || ltb b'9' c then none else if ltb 100000 v then none else rest

unfoldable pub parse_int : List ℕ → Option ℕ
unfolding parse_int_from
parse_int [] = none
parse_int (c ∷ cs) = parse_int_from 0 (c ∷ cs)

unfoldable pub skip_spaces : List ℕ → List ℕ
skip_spaces [] = []
skip_spaces (c ∷ cs) = if c == b' ' || c == 9 then skip_spaces cs else c ∷ cs

abbrev pub byte_of : Option ℕ → Option ℕ → Option (List ℕ) → Option (List ℕ)
byte_of (some hi) (some lo) (some rest) = some ((hi * 16 + lo) ∷ rest)
byte_of (some hi) (some lo) none = none
byte_of (some hi) none rest = none
byte_of none lo rest = none

-- The loop over the digits of `<b 0x...>`, of which there is an even number.
unfoldable pub hex_bytes : List ℕ → Option (List ℕ)
unfolding hex_val
hex_bytes [] = some []
hex_bytes (hi ∷ []) = some []
hex_bytes (hi ∷ lo ∷ rest) = byte_of (hex_val hi) (hex_val lo) (hex_bytes rest)

-- A segment at the end of the template, with the static bytes that it brings.
unfoldable pub add_segment : Template → Segment → List ℕ → Template
add_segment t seg bytes = record { segs = t.segs ++ seg ∷ []; static_data = t.static_data ++ bytes }

abbrev pub add_static : Template → Option (List ℕ) → Option Template
add_static t none = none
add_static t (some bytes) =
    some (add_segment t (static_bytes (length t.static_data) (length bytes)) bytes)

-- `case 'b'`, after the spaces.
unfoldable pub parse_static : Template → List ℕ → Option Template
unfolding hex_bytes add_segment
parse_static t [] = none
parse_static t (zero_char ∷ []) = none
parse_static t (zero_char ∷ x ∷ []) = none
parse_static t (zero_char ∷ x ∷ d ∷ ds) =
    if not (zero_char == b'0') || (not (x == b'x') && not (x == b'X'))
    then none
    else if not (length (d ∷ ds) % 2 == 0)
    then none
    else if ltb cps_max_static (length t.static_data + length (d ∷ ds) / 2)
    then none
    else add_static t (hex_bytes (d ∷ ds))

-- `seg->size = size`: the field has 16 bits.
abbrev pub add_sized : Template → (ℕ → Segment) → Option ℕ → Option Template
add_sized t kind none = none
add_sized t kind (some size) = if size == 0 then none else some (add_segment t (kind (u16 size)) [])

-- `case 'r'`, from the character after it.
unfoldable pub parse_random : Template → List ℕ → Option Template
unfolding parse_int skip_spaces add_segment
parse_random t [] = add_sized t random (parse_int [])
parse_random t (c ∷ cs) =
    if c == b'c'
    then add_sized t random_chars (parse_int (skip_spaces cs))
    else if c == b'd'
    then add_sized t random_digits (parse_int (skip_spaces cs))
    else add_sized t random (parse_int (skip_spaces (c ∷ cs)))

-- The characters between `<` and `>`: the `switch` on the first.
unfoldable pub parse_segment : Template → List ℕ → Option Template
unfolding parse_static parse_random
parse_segment t [] = none
parse_segment t (kind ∷ rest) =
    if leb cps_max_segments (length t.segs)
    then none
    else if kind == b'b'
    then parse_static t (skip_spaces rest)
    else if kind == b'r'
    then parse_random t rest
    else if kind == b't'
    then some (add_segment t timestamp [])
    else if kind == b'c'
    then some (add_segment t counter [])
    else none

abbrev pub is_blank : ℕ → Bool
is_blank c = c == b' ' || (c == 9 || (c == 10 || c == 13))

-- Where the loop of `cps_parse` is: refused, between the segments, or in one with the characters since
-- its `<`. The closing `>` is looked for in the same pass.
pub data Scan : Type 0 where
  refused : Scan
  outside : (t : Template) → Scan
  inside : (t : Template) (inner : List ℕ) → Scan

unfoldable pub resume : Option Template → Scan
resume none = refused
resume (some t) = outside t

unfoldable pub scan_char : Scan → ℕ → Scan
unfolding parse_segment resume
scan_char refused c = refused
scan_char (outside t) c =
    if is_blank c then outside t else if c == b'<' then inside t [] else refused
scan_char (inside t inner) c =
    if c == b'>' then resume (parse_segment t inner) else inside t (inner ++ c ∷ [])

unfoldable pub scan_end : Scan → Option Template
scan_end refused = none
scan_end (outside t) = some t
scan_end (inside t inner) = none

unfoldable pub parse_from : Scan → List ℕ → Option Template
unfolding scan_char scan_end
parse_from s [] = scan_end s
parse_from s (c ∷ cs) = parse_from (scan_char s c) cs

-- The tests after the loop.
unfoldable pub checked : Option Template → Option Template
unfolding cps_max_size
checked none = none
checked (some t) =
    if length t.segs == 0 then none else if ltb 1500 (cps_max_size t) then none else some t

-- `cps_parse`
unfoldable pub cps_parse : List ℕ → Option Template
unfolding parse_from checked
cps_parse s = checked (parse_from (outside (record { segs = []; static_data = [] })) s)
