-- ===== src/Runtime/Parse.antt =====
-- What the parsers of numbers and ranges in src/config_runtime.c accept.
use std.Path.{subst}
use mathlib.Core.Option.{none-ne-some, some-injective}
use mathlib.Core.List.{append-nil}
use awg2_webui.Base.{
  ℕ, zero, suc, ◌≤◌, ◌<◌, ◌^◌, ◌≡◌, refl, ap, sym, ◌∙◌, Bool, true, false, not, ◌||◌, Option, some,
  none, List, [], ◌∷◌, ◌++◌, ltb, leb, ◌==◌, if◌then◌else◌, if_true, if_false, length, ℤ, pos,
  negsuc, arith, All, Bool-cases, inl, inr, Numeral, scan_number, decimal, IsDigit, length-decimal,
  decimal-IsDigit, scan_number-decimal, scan_number-minus, decimal_not_empty, split_at, has_byte,
  le_of_ltb-false,
}
use awg2_webui.Transform.{Hrange}
use awg2_webui.Transform.Ranges.{IsRange}
use awg2_webui.Runtime.{
  nul, unsigned_of, parse_uint32_str, minus, int_of, parse_int_strict, ordered_range, one_value,
  two_values, parse_hrange_parts, parse_hrange_str,
}

-- `%d`
abbrev pub signed_decimal : ℤ → List ℕ
signed_decimal (pos n) = decimal n
signed_decimal (negsuc n) = b'-' ∷ decimal (suc n)

-- The values of `int`.
abbrev pub FitsInt : ℤ → Type 0
FitsInt (pos n) = n < 2 ^ 31
FitsInt (negsuc n) = n < 2 ^ 31

at_end :
    (n : ℕ) → scan_number (decimal n) ≡ some (record { negative = false; magnitude = n; rest = [] })
at_end n = ap scan_number (sym (append-nil (decimal n))) ∙ scan_number-decimal n [] tt

at_end_minus :
    (n : ℕ)
    → scan_number (b'-' ∷ decimal n) ≡ some (record { negative = true; magnitude = n; rest = [] })
at_end_minus n =
    ap (λ s. scan_number (b'-' ∷ s)) (sym (append-nil (decimal n))) ∙ scan_number-minus n [] tt

-- An `int` that is printed in decimal is parsed as itself, the smallest one included.
pub parse_int_strict-signed_decimal :
    (z : ℤ) → FitsInt z → parse_int_strict (signed_decimal z) ≡ some z
unfolding parse_int_strict int_of
parse_int_strict-signed_decimal (pos n) h =
    let small : leb (2 ^ 31) n ≡ false = ground arith in ap int_of (at_end n) ∙ rw (small) refl
parse_int_strict-signed_decimal (negsuc n) h =
    let small : ltb (2 ^ 31) (suc n) ≡ false = ground arith in
    ap int_of (at_end_minus (suc n)) ∙ rw (small) refl

minus_fits : (n : ℕ) → n ≤ 2 ^ 31 → FitsInt (minus n)
minus_fits zero h = omega arith
minus_fits (suc n) h = omega arith

guarded_fits :
    (b : Bool) (v z : ℤ)
    → (b ≡ false → FitsInt v)
    → (if b then none else some v) ≡ some z
    → FitsInt z
guarded_fits true v z h e = absurd (none-ne-some z e)
guarded_fits false v z h e = subst FitsInt (some-injective v z e) (h refl)

magnitude_fits :
    (negative : Bool) (m : ℕ) (z : ℤ)
    → (if negative
        then (if ltb (2 ^ 31) m then none else some (minus m))
        else (if leb (2 ^ 31) m then none else some (pos m)))
      ≡ some z
    → FitsInt z
magnitude_fits true m z e =
    guarded_fits (ltb (2 ^ 31) m) (minus m) z (λ h. minus_fits m (le_of_ltb-false (2 ^ 31) m h)) e
magnitude_fits false m z e = guarded_fits (leb (2 ^ 31) m) (pos m) z (λ h. ground arith) e

int_of-FitsInt : (x : Option Numeral) (z : ℤ) → int_of x ≡ some z → FitsInt z
unfolding int_of
int_of-FitsInt none z e = absurd (none-ne-some z e)
int_of-FitsInt (some x) z e = elim (Bool-cases (not (nul x.rest))) [
  | inl more ↦ absurd (none-ne-some z (sym (if_true _ more _ _) ∙ e))
  | inr done ↦ magnitude_fits x.negative x.magnitude z (sym (if_false _ done _ _) ∙ e)
]

-- Whatever is parsed as an `int` is one.
pub parse_int_strict-FitsInt : (s : List ℕ) (z : ℤ) → parse_int_strict s ≡ some z → FitsInt z
unfolding parse_int_strict
parse_int_strict-FitsInt s z h = int_of-FitsInt (scan_number s) z h

unsigned_of_decimal : (n : ℕ) → n < 2 ^ 32 → parse_uint32_str (decimal n) ≡ some n
unfolding parse_uint32_str unsigned_of
unsigned_of_decimal n h =
    let narrow : leb (2 ^ 32) n ≡ false = ground arith in
    let small : leb (2 ^ 64) n ≡ false = ground arith in
    ap unsigned_of (at_end n) ∙ rw (narrow, small) refl

guarded_lt :
    (b : Bool) (v w : ℕ)
    → (b ≡ false → v < 2 ^ 32)
    → (if b then none else some v) ≡ some w
    → w < 2 ^ 32
guarded_lt true v w h e = absurd (none-ne-some w e)
guarded_lt false v w h e = subst (λ x. x < 2 ^ 32) (some-injective v w e) (h refl)

unsigned_of_lt : (x : Option Numeral) (v : ℕ) → unsigned_of x ≡ some v → v < 2 ^ 32
unfolding unsigned_of
unsigned_of_lt none v e = absurd (none-ne-some v e)
unsigned_of_lt (some x) v e = elim (Bool-cases (leb (2 ^ 64) x.magnitude)) [
  | inl big ↦ absurd (none-ne-some v (sym (if_true _ big _ _) ∙ e))
  | inr small ↦ elim (Bool-cases (not (nul x.rest))) [
    | inl more ↦ absurd (none-ne-some v (sym (if_true _ more _ _) ∙ sym (if_false _ small _ _) ∙ e))
    | inr done ↦
        guarded_lt _ _ v (λ h. ground arith)
          (sym (if_false _ done _ _) ∙ sym (if_false _ small _ _) ∙ e)
  ]
]

pub ordered_range-IsRange :
    (lo hi : Option ℕ) (r : Hrange)
    → ((v : ℕ) → hi ≡ some v → v < 2 ^ 32)
    → ordered_range lo hi ≡ some r
    → IsRange r
ordered_range-IsRange none hi r h e = absurd (none-ne-some r e)
ordered_range-IsRange (some lo) none r h e = absurd (none-ne-some r e)
ordered_range-IsRange (some lo) (some hi) r h e = elim (Bool-cases (ltb hi lo)) [
  | inl wrong ↦ absurd (none-ne-some r (sym (if_true _ wrong _ _) ∙ e))
  | inr ordered ↦
      subst IsRange (some-injective _ r (sym (if_false _ ordered _ _) ∙ e))
        (record { ordered = le_of_ltb-false hi lo ordered; fits = h hi refl })
]

pub one_value-IsRange :
    (v : Option ℕ) (r : Hrange)
    → ((w : ℕ) → v ≡ some w → w < 2 ^ 32)
    → one_value v ≡ some r
    → IsRange r
unfolding one_value
one_value-IsRange none r h e = absurd (none-ne-some r e)
one_value-IsRange (some v) r h e =
    subst IsRange (some-injective _ r e) (record { ordered = omega arith; fits = h v refl })

pub parse_uint32_str_lt : (s : List ℕ) (v : ℕ) → parse_uint32_str s ≡ some v → v < 2 ^ 32
unfolding parse_uint32_str
parse_uint32_str_lt s v e = unsigned_of_lt (scan_number s) v e

two_values-IsRange : (left right : List ℕ) (r : Hrange) → two_values left right ≡ some r → IsRange r
unfolding two_values
two_values-IsRange left right r e = elim (Bool-cases (nul left || leb 32 (length left))) [
  | inl bad ↦ absurd (none-ne-some r (sym (if_true _ bad _ _) ∙ e))
  | inr good ↦ elim (Bool-cases (has_byte b'-' right)) [
    | inl bad ↦ absurd (none-ne-some r (sym (if_true _ bad _ _) ∙ sym (if_false _ good _ _) ∙ e))
    | inr fine ↦
        ordered_range-IsRange (parse_uint32_str left) (parse_uint32_str right) r
          (parse_uint32_str_lt right) (sym (if_false _ fine _ _) ∙ sym (if_false _ good _ _) ∙ e)
  ]
]

parse_hrange_parts-IsRange :
    (s : List ℕ) (x : Option (List ℕ × List ℕ)) (r : Hrange)
    → parse_hrange_parts s x ≡ some r
    → IsRange r
unfolding parse_hrange_parts
parse_hrange_parts-IsRange s none r e =
    one_value-IsRange (parse_uint32_str s) r (parse_uint32_str_lt s) e
parse_hrange_parts-IsRange s (some x) r e = two_values-IsRange x.0 x.1 r e

-- A range that is accepted is ordered and of 32-bit numbers, which is what the transforms and the ring
-- of H4 values ask of a range.
pub parse_hrange_str-IsRange : (s : List ℕ) (r : Hrange) → parse_hrange_str s ≡ some r → IsRange r
unfolding parse_hrange_str
parse_hrange_str-IsRange s r e = parse_hrange_parts-IsRange s (split_at b'-' s) r e

no_dash : (c : ℕ) → IsDigit c → (c == b'-') ≡ false
no_dash c h = ground arith

split_at_digits : (ds s : List ℕ) → All IsDigit ds → split_at b'-' (ds ++ (b'-' ∷ s)) ≡ some (ds, s)
unfolding split_at
split_at_digits [] s h = refl
split_at_digits (d ∷ ds) s h = rw (no_dash d h.0, split_at_digits ds s h.1) refl

has_byte_digits : (ds : List ℕ) → All IsDigit ds → has_byte b'-' ds ≡ false
unfolding has_byte
has_byte_digits [] h = refl
has_byte_digits (d ∷ ds) h = rw (no_dash d h.0) (has_byte_digits ds h.1)

pub nul_of_length : (s : List ℕ) → 0 < length s → nul s ≡ false
nul_of_length [] h = absurd (omega arith)
nul_of_length (c ∷ s) h = refl

-- `min-max` in decimal is parsed as that range.
pub parse_hrange_str-decimal :
    (r : Hrange) → IsRange r → parse_hrange_str (decimal r.min ++ (b'-' ∷ decimal r.max)) ≡ some r
unfolding parse_hrange_str parse_hrange_parts two_values
parse_hrange_str-decimal r range =
    let lo : r.min ≤ r.max = range.ordered in
    let hi : r.max < 2 ^ 32 = range.fits in
    let size : length (decimal r.min) ≤ 10 = length-decimal r.min 9 (omega arith) in
    let short : leb 32 (length (decimal r.min)) ≡ false = ground arith in
    let order : ltb r.max r.min ≡ false = ground arith in
    ap (parse_hrange_parts (decimal r.min ++ (b'-' ∷ decimal r.max)))
      (split_at_digits (decimal r.min) (decimal r.max) (decimal-IsDigit r.min))
    ∙ rw
        (
          nul_of_length (decimal r.min) (decimal_not_empty r.min),
          short,
          has_byte_digits (decimal r.max) (decimal-IsDigit r.max),
          unsigned_of_decimal r.min (omega (arith, lo, hi)),
          unsigned_of_decimal r.max hi,
          order,
        )
        refl
