-- ===== src/Cps/Sound.antt =====
-- The templates that `cps_parse` accepts (src/cps.c).
use awg2_webui.Base.{
  ℕ, suc, ◌+◌, ◌/◌, ◌%◌, ◌≤◌, ◌<◌, ◌≡◌, refl, ap, sym, ◌∙◌, Bool, true, false, not, ◌&&◌, ◌||◌,
  Option, some, none, List, [], ◌∷◌, ◌++◌, ltb, leb, ◌==◌, if◌then◌else◌, length, u16,
  length-append, arith, All, All-append, All-map, inl, inr, Bool-cases,
}
use std.Path.{subst}
use mathlib.Core.Option.{some-injective, none-ne-some}
use awg2_webui.Cps.{
  Segment, static_bytes, random, random_chars, random_digits, timestamp, counter, Template,
  cps_max_size, cps_generate,
}
use awg2_webui.Cps.Size.{IsInside, cps_generate-max_size}
use awg2_webui.Cps.Parse.{
  cps_max_segments, cps_max_static, hex_val, byte_of, add_static, add_sized, is_blank, hex_bytes,
  parse_int, skip_spaces, add_segment, parse_static, parse_random, parse_segment, Scan, refused,
  outside, inside, resume, scan_char, scan_end, parse_from, checked, cps_parse,
}

-- The arrays of the template are within their bounds, and its segments within its static data.
abbrev pub IsTemplate : Template → Type 0
IsTemplate t =
    All (IsInside t.static_data) t.segs
    × (length t.segs ≤ cps_max_segments)
    × (length t.static_data ≤ cps_max_static)

IsInside-append : (d e : List ℕ) (seg : Segment) → IsInside d seg → IsInside (d ++ e) seg
IsInside-append d e (static_bytes off len) h = omega (arith, h, length-append d e)
IsInside-append d e (random size) h = tt
IsInside-append d e (random_chars size) h = tt
IsInside-append d e (random_digits size) h = tt
IsInside-append d e timestamp h = tt
IsInside-append d e counter h = tt

add_segment-IsTemplate :
    (t : Template) (seg : Segment) (bytes : List ℕ)
    → IsTemplate t
    → length t.segs < cps_max_segments
    → length t.static_data + length bytes ≤ cps_max_static
    → IsInside (t.static_data ++ bytes) seg
    → IsTemplate (add_segment t seg bytes)
unfolding add_segment
add_segment-IsTemplate t seg bytes (segs, n, used) room fits here = (
  All-append (IsInside (t.static_data ++ bytes)) t.segs (seg ∷ [])
      (All-map (IsInside t.static_data) (IsInside (t.static_data ++ bytes)) t.segs
        (IsInside-append t.static_data bytes) segs)
      (here, tt),
  omega (arith, room, length-append t.segs (seg ∷ [])),
  omega (arith, fits, length-append t.static_data bytes),
)

byte_of-length :
    (hi lo : Option ℕ) (rest : Option (List ℕ)) (n : ℕ)
    → ((out : List ℕ) → rest ≡ some out → length out ≡ n)
    → (out : List ℕ) → byte_of hi lo rest ≡ some out
    → length out ≡ n + 1
byte_of-length (some hi) (some lo) (some tail) n h out e =
    sym (ap length (some-injective _ out e)) ∙ ap suc (h tail refl) ∙ omega arith
byte_of-length (some hi) (some lo) none n h out e = absurd (none-ne-some out e)
byte_of-length (some hi) none rest n h out e = absurd (none-ne-some out e)
byte_of-length none lo rest n h out e = absurd (none-ne-some out e)

length-hex_bytes :
    (digits out : List ℕ) → hex_bytes digits ≡ some out → length out ≡ length digits / 2
unfolding hex_bytes
length-hex_bytes [] out e = sym (ap length (some-injective _ out e))
length-hex_bytes (hi ∷ []) out e = sym (ap length (some-injective _ out e))
length-hex_bytes (hi ∷ lo ∷ rest) out e =
    byte_of-length (hex_val hi) (hex_val lo) (hex_bytes rest) (length rest / 2)
      (λ tail h. length-hex_bytes rest tail h) out e
    ∙ omega arith

-- Each result is a template within its bounds.
abbrev IsSound : Option Template → Type 0
IsSound o = (t : Template) → o ≡ some t → IsTemplate t

none-IsSound : IsSound none
none-IsSound t e = absurd (none-ne-some t e)

some-IsSound : (t : Template) → IsTemplate t → IsSound (some t)
some-IsSound t h u e = subst IsTemplate (some-injective t u e) h

if-IsSound :
    (c : Bool) (a b : Option Template)
    → (c ≡ true → IsSound a)
    → (c ≡ false → IsSound b)
    → IsSound (if c then a else b)
if-IsSound true a b h k = h refl
if-IsSound false a b h k = k refl

unless-IsSound :
    (c : Bool) (b : Option Template) → (c ≡ false → IsSound b) → IsSound (if c then none else b)
unless-IsSound c b k = if-IsSound c none b (λ e. none-IsSound) k

IsInside-sized : (d : List ℕ) (size : ℕ) → IsInside d (random size)
IsInside-sized d size = tt

parse_segment-full :
    (t : Template)
    → leb cps_max_segments (length t.segs) ≡ true
    → (inner : List ℕ) → parse_segment t inner ≡ none
unfolding parse_segment
parse_segment-full t full [] = refl
parse_segment-full t full (kind ∷ rest) = rw (full) refl

module _ (t : Template) (ok : IsTemplate t) (room : length t.segs < cps_max_segments) where
  bare : (seg : Segment) → IsInside (t.static_data ++ []) seg → IsTemplate (add_segment t seg [])
  bare seg h =
      let (segs, n, fits') = ok in
      let fits : length t.static_data + length {A = ℕ} [] ≤ cps_max_static = omega (arith, fits') in
      add_segment-IsTemplate t seg [] ok room (fits) h

  add_sized-IsSound :
      (kind : ℕ → Segment) (o : Option ℕ)
      → ((n : ℕ) → IsInside (t.static_data ++ []) (kind n))
      → IsSound (add_sized t kind o)
  add_sized-IsSound kind none h = none-IsSound
  add_sized-IsSound kind (some size) h =
      unless-IsSound (size == 0) (some (add_segment t (kind (u16 size)) [])) (λ e.
        some-IsSound (add_segment t (kind (u16 size)) []) (bare (kind (u16 size)) (h (u16 size))))

  parse_random-IsSound : (cs : List ℕ) → IsSound (parse_random t cs)
  unfolding parse_random
  parse_random-IsSound [] = add_sized-IsSound random (parse_int []) (λ n. tt)
  parse_random-IsSound (c ∷ cs) =
      if-IsSound (c == b'c') _ _
        (λ e. add_sized-IsSound random_chars (parse_int (skip_spaces cs)) (λ n. tt))
        (λ e.
          if-IsSound (c == b'd') _ _
            (λ e'. add_sized-IsSound random_digits (parse_int (skip_spaces cs)) (λ n. tt))
            (λ e'. add_sized-IsSound random (parse_int (skip_spaces (c ∷ cs))) (λ n. tt)))

  add_static-IsSound :
      (o : Option (List ℕ)) (n : ℕ)
      → ((out : List ℕ) → o ≡ some out → length out ≡ n)
      → length t.static_data + n ≤ cps_max_static
      → IsSound (add_static t o)
  add_static-IsSound none n size fits = none-IsSound
  add_static-IsSound (some bytes) n size fits =
      some-IsSound (add_segment t (static_bytes (length t.static_data) (length bytes)) bytes) (
        add_segment-IsTemplate t (static_bytes (length t.static_data) (length bytes)) bytes ok room
          (omega (arith, size bytes refl, fits)) (omega (arith, length-append t.static_data bytes)))

  parse_static-IsSound : (cs : List ℕ) → IsSound (parse_static t cs)
  unfolding parse_static
  parse_static-IsSound [] = none-IsSound
  parse_static-IsSound (a ∷ []) = none-IsSound
  parse_static-IsSound (a ∷ x ∷ []) = none-IsSound
  parse_static-IsSound (a ∷ x ∷ d ∷ ds) =
      unless-IsSound (not (a == b'0') || (not (x == b'x') && not (x == b'X'))) _ (λ e.
        unless-IsSound (not (length (d ∷ ds) % 2 == 0)) _ (λ even.
          unless-IsSound (ltb cps_max_static (length t.static_data + length (d ∷ ds) / 2))
            (add_static t (hex_bytes (d ∷ ds)))
            (λ fits.
              add_static-IsSound (hex_bytes (d ∷ ds)) (length (d ∷ ds) / 2)
                (length-hex_bytes (d ∷ ds)) (ground (arith, fits)))))

  parse_segment-IsSound : (inner : List ℕ) → IsSound (parse_segment t inner)
  unfolding parse_segment
  parse_segment-IsSound [] = none-IsSound
  parse_segment-IsSound (kind ∷ rest) = unless-IsSound _ _ (λ e.
      if-IsSound (kind == b'b') _ _ (λ e'. parse_static-IsSound (skip_spaces rest))
        (λ e'.
          if-IsSound (kind == b'r') _ _ (λ e'. parse_random-IsSound rest)
            (λ e'.
              if-IsSound (kind == b't') _ _ (λ e'. some-IsSound _ (bare timestamp tt))
                (λ e'.
                  if-IsSound (kind == b'c') _ _ (λ e'. some-IsSound _ (bare counter tt))
                    (λ e'. none-IsSound)))))

segment-IsSound : (t : Template) → IsTemplate t → (inner : List ℕ) → IsSound (parse_segment t inner)
segment-IsSound t ok inner = elim (Bool-cases (leb cps_max_segments (length t.segs))) [
  | inl full ↦ subst IsSound (sym (parse_segment-full t full inner)) none-IsSound
  | inr room ↦ parse_segment-IsSound t ok (ground (arith, room)) inner
]

unfoldable IsScan : Scan → Type 0
IsScan refused = Unit
IsScan (outside t) = IsTemplate t
IsScan (inside t inner) = IsTemplate t

resume-IsScan : (o : Option Template) → IsSound o → IsScan (resume o)
unfolding resume IsScan
resume-IsScan none h = tt
resume-IsScan (some t) h = h t refl

scan_char-IsScan : (s : Scan) (c : ℕ) → IsScan s → IsScan (scan_char s c)
unfolding scan_char IsScan
scan_char-IsScan refused c h = tt
scan_char-IsScan (outside t) c h = elim (Bool-cases (is_blank c)) [
  | inl e ↦ rw (e) h
  | inr e ↦ elim (Bool-cases (c == b'<')) [ inl e' ↦ rw (e, e') h | inr e' ↦ rw (e, e') tt ]
]
scan_char-IsScan (inside t inner) c h = elim (Bool-cases (c == b'>')) [
  | inl e ↦ rw (e) (resume-IsScan (parse_segment t inner) (segment-IsSound t h inner))
  | inr e ↦ rw (e) h
]

parse_from-IsSound : (s : Scan) (cs : List ℕ) → IsScan s → IsSound (parse_from s cs)
unfolding parse_from scan_end IsScan
parse_from-IsSound refused [] h = none-IsSound
parse_from-IsSound (outside t) [] h = some-IsSound t h
parse_from-IsSound (inside t inner) [] h = none-IsSound
parse_from-IsSound s (c ∷ cs) h = parse_from-IsSound (scan_char s c) cs (scan_char-IsScan s c h)

guards-some :
    (a b : Bool) (u t : Template)
    → (if a then none else if b then none else some u) ≡ some t
    → (a ≡ false) × (b ≡ false) × (u ≡ t)
guards-some true b u t e = absurd (none-ne-some t e)
guards-some false true u t e = absurd (none-ne-some t e)
guards-some false false u t e = (refl, refl, some-injective u t e)

checked_lem :
    (o : Option Template) (t : Template)
    → checked o ≡ some t
    → (o ≡ some t) × (0 < length t.segs) × (cps_max_size t ≤ 1500)
unfolding checked
checked_lem none t e = absurd (none-ne-some t e)
checked_lem (some u) t e =
    let (a, b, same) = guards-some (length u.segs == 0) (ltb 1500 (cps_max_size u)) u t e in
    let some_segs : 0 < length u.segs = ground (arith, a) in
    let size : cps_max_size u ≤ 1500 = ground (arith, b) in
    (
      ap some same,
      subst (λ v. 0 < length v.segs) same some_segs,
      subst (λ v. cps_max_size v ≤ 1500) same size,
    )

-- A template that `cps_parse` accepts has between 1 and 32 segments and at most 1500 static bytes, its
-- segments lie in them, and its packets are at most 1500 bytes.
pub cps_parse-IsTemplate :
    (s : List ℕ) (t : Template)
    → cps_parse s ≡ some t
    → IsTemplate t × (0 < length t.segs) × (cps_max_size t ≤ 1500)
unfolding cps_parse
cps_parse-IsTemplate s t e =
    let (parsed, some_segs, size) =
      checked_lem (parse_from (outside (record { segs = []; static_data = [] })) s) t e in
    (
      parse_from-IsSound (outside (record { segs = []; static_data = [] })) s
          (unfold IsScan in (tt, omega arith, omega arith)) t parsed,
      some_segs,
      size,
    )

-- Each packet of a template that was parsed has the size that `cps_max_size` says, in the 1500 bytes
-- that `cps_generate_all` gives it.
pub cps_generate-cps_parse :
    (clock : ℕ → ℕ) (s : List ℕ) (t : Template) (count : ℕ)
    → cps_parse s ≡ some t
    → length (cps_generate clock t count 1500) ≡ cps_max_size t
cps_generate-cps_parse clock s t count e =
    let (ok, some_segs, size) = cps_parse-IsTemplate s t e in
    cps_generate-max_size clock t count 1500 ok.0 size
