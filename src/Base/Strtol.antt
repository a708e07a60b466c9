-- ===== src/Base/Strtol.antt =====
-- `strtol` and `strtoul` of the C library in base 10, on the strings of Text, and decimal printing.
use Prim.Native.Nat.{ℕ, zero, suc, ◌+◌, ◌-◌, ◌*◌, ◌/◌, ◌%◌, ◌^◌, ◌≤◌, ◌<◌}
use mathlib.Core.Path.{◌≡◌, refl, ◌∙◌, ap}
use mathlib.Core.Bool.{Bool, true, false, ◌&&◌, ◌||◌}
use mathlib.Core.Option.{Option, none, some}
use mathlib.Core.List.{List, [], ◌∷◌, ◌++◌}
use mathlib.Core.Logic.{inl, inr}
use native.Mathlib.Omega.{arith}
use awg2_webui.Base.Test.{ltb, leb, ◌==◌, if◌then◌else◌, Bool-cases}
use awg2_webui.Base.Seq.{length, All}
use awg2_webui.Base.Append.{length-append}

-- `isspace` in the C locale.
abbrev pub is_space : ℕ → Bool
is_space c = c == 32 || (leb 9 c && leb c 13)

abbrev pub is_digit : ℕ → Bool
is_digit c = leb b'0' c && leb c b'9'

unfoldable pub skip_spaces : List ℕ → List ℕ
skip_spaces [] = []
skip_spaces (c ∷ s) = let rest = skip_spaces s in if is_space c then rest else c ∷ s

-- The digits at the front, as a number behind `acc`, and what follows them.
unfoldable pub scan_digits : List ℕ → ℕ → ℕ × List ℕ
scan_digits [] acc = (acc, [])
scan_digits (c ∷ s) acc =
    let rest = scan_digits s (acc * 10 + (c - b'0')) in if is_digit c then rest else (acc, c ∷ s)

-- The sign, the magnitude before any conversion, and what follows.
pub record Numeral : Type 0 where
  pub negative : Bool
  pub magnitude : ℕ
  pub rest : List ℕ

abbrev numeral : Bool → ℕ × List ℕ → Numeral
numeral negative scanned = record { negative = negative; magnitude = scanned.0; rest = scanned.1 }

-- `none` where there is no digit.
unfoldable pub scan_magnitude : Bool → List ℕ → Option Numeral
unfolding scan_digits
scan_magnitude negative [] = none
scan_magnitude negative (c ∷ s) =
    if is_digit c then some (numeral negative (scan_digits (c ∷ s) 0)) else none

unfoldable pub scan_sign : List ℕ → Option Numeral
unfolding scan_magnitude
scan_sign [] = none
scan_sign (c ∷ s) =
    if c == b'-'
    then scan_magnitude true s
    else if c == b'+'
    then scan_magnitude false s
    else scan_magnitude false (c ∷ s)

-- What `strtol` and `strtoul` read.
unfoldable pub scan_number : List ℕ → Option Numeral
unfolding skip_spaces scan_sign
scan_number s = scan_sign (skip_spaces s)

-- `%u` and `%d` of a number that is not negative, with more fuel than the number.
unfoldable pub decimal_from : ℕ → ℕ → List ℕ
decimal_from zero n = []
decimal_from (suc fuel) n =
    let front = decimal_from fuel (n / 10) in
    (if ltb n 10 then [] else front) ++ ((b'0' + n % 10) ∷ [])

unfoldable pub decimal : ℕ → List ℕ
unfolding decimal_from
decimal n = decimal_from (suc n) n

abbrev pub IsDigit : ℕ → Type 0
IsDigit c = is_digit c ≡ true

-- The number that digits denote, behind `acc`.
abbrev pub value : ℕ → List ℕ → ℕ
value acc [] = acc
value acc (c ∷ s) = value (acc * 10 + (c - b'0')) s

value-append : (acc : ℕ) (xs ys : List ℕ) → value acc (xs ++ ys) ≡ value (value acc xs) ys
value-append acc [] ys = refl
value-append acc (x ∷ xs) ys = value-append (acc * 10 + (x - b'0')) xs ys

All-snoc : (P : ℕ → Type 0) (xs : List ℕ) (y : ℕ) → All P xs → P y → All P (xs ++ (y ∷ []))
All-snoc P [] y h k = (k, tt)
All-snoc P (x ∷ xs) y h k = (h.0, All-snoc P xs y h.1 k)

last-IsDigit : (n : ℕ) → IsDigit (b'0' + n % 10)
last-IsDigit n = ground arith

if-All : (b : Bool) (xs : List ℕ) → All IsDigit xs → All IsDigit (if b then [] else xs)
if-All true xs h = tt
if-All false xs h = h

-- The digits of a number, and the number that they denote.
decimal_from_lem :
    (fuel n : ℕ)
    → n < fuel
    → All IsDigit (decimal_from fuel n) × (value 0 (decimal_from fuel n) ≡ n)
unfolding decimal_from
decimal_from_lem zero n h = absurd (omega arith)
decimal_from_lem (suc fuel) n h =
    let front : List ℕ = decimal_from fuel (n / 10) in
    let d : ℕ = b'0' + n % 10 in
    elim (Bool-cases (ltb n 10)) [
      | inl small ↦ rw (small) ((last-IsDigit n, tt), ground arith)
      | inr big ↦
          let below : n / 10 < fuel = ground arith in
          let (digits, same) = decimal_from_lem fuel (n / 10) below in
          rw (big) (
            All-snoc IsDigit front d digits (last-IsDigit n),
            value-append 0 front (d ∷ []) ∙ ap (λ v. v * 10 + (d - b'0')) same ∙ omega arith,
          )
    ]

one_longer : (front : List ℕ) (d m : ℕ) → length front ≤ m → length (front ++ (d ∷ [])) ≤ suc m
one_longer front d m h = omega (arith, length-append front (d ∷ []))

length-decimal_from : (fuel n m : ℕ) → n < 10 ^ suc m → length (decimal_from fuel n) ≤ suc m
unfolding decimal_from
length-decimal_from zero n m h = omega arith
length-decimal_from (suc fuel) n zero h =
    let small : ltb n 10 ≡ true = ground arith in rw (small) omega arith
length-decimal_from (suc fuel) n (suc m) h = elim (Bool-cases (ltb n 10)) [
  | inl small ↦ rw (small) omega arith
  | inr big ↦
      let below : n / 10 < 10 ^ suc m = omega (arith, h) in
      rw (big) (
        one_longer (decimal_from fuel (n / 10)) (b'0' + n % 10) (suc m)
          (length-decimal_from fuel (n / 10) m below))
]

-- The decimal digits of a number, with something else behind them, are scanned as that number.
abbrev pub NoDigit : List ℕ → Type 0
NoDigit [] = Unit
NoDigit (c ∷ s) = is_digit c ≡ false

scan_digits-append :
    (ds s : List ℕ) (acc : ℕ)
    → All IsDigit ds
    → NoDigit s
    → scan_digits (ds ++ s) acc ≡ (value acc ds, s)
unfolding scan_digits
scan_digits-append [] [] acc h stop = refl
scan_digits-append [] (c ∷ s) acc h stop = rw (stop) refl
scan_digits-append (d ∷ ds) s acc h stop =
    rw (h.0) (scan_digits-append ds s (acc * 10 + (d - b'0')) h.1 stop)

pub length-decimal : (n m : ℕ) → n < 10 ^ suc m → length (decimal n) ≤ suc m
unfolding decimal
length-decimal n m h = length-decimal_from (suc n) n m h

pub decimal-IsDigit : (n : ℕ) → All IsDigit (decimal n)
unfolding decimal
decimal-IsDigit n = (decimal_from_lem (suc n) n (omega arith)).0

pub value-decimal : (n : ℕ) → value 0 (decimal n) ≡ n
unfolding decimal
value-decimal n = (decimal_from_lem (suc n) n (omega arith)).1

pub scan_digits-decimal : (n : ℕ) (s : List ℕ) → NoDigit s → scan_digits (decimal n ++ s) 0 ≡ (n, s)
unfolding decimal
scan_digits-decimal n s stop =
    let (digits, same) = decimal_from_lem (suc n) n (omega arith) in
    scan_digits-append (decimal n) s 0 digits stop ∙ ap (λ v. (v, s)) same

-- Whatever begins with a digit is a number without a sign.
scan_number_digit :
    (c : ℕ) (s : List ℕ)
    → IsDigit c
    → scan_number (c ∷ s) ≡ some (numeral false (scan_digits (c ∷ s) 0))
unfolding scan_number skip_spaces scan_sign scan_magnitude
scan_number_digit c s h =
    let dark : is_space c ≡ false = ground arith in
    let no_minus : (c == b'-') ≡ false = ground arith in
    let no_plus : (c == b'+') ≡ false = ground arith in rw (dark, no_minus, no_plus, h) refl

digits_number :
    (ds s : List ℕ)
    → All IsDigit ds
    → 0 < length ds
    → scan_number (ds ++ s) ≡ some (numeral false (scan_digits (ds ++ s) 0))
digits_number [] s h l = absurd (omega arith)
digits_number (d ∷ ds) s h l = scan_number_digit d (ds ++ s) h.0

pub decimal_not_empty : (n : ℕ) → 0 < length (decimal n)
unfolding decimal decimal_from
decimal_not_empty n =
    omega (
      arith,
      length-append (if ltb n 10 then [] else decimal_from n (n / 10)) ((b'0' + n % 10) ∷ []),
    )

pub scan_number-decimal :
    (n : ℕ) (s : List ℕ)
    → NoDigit s
    → scan_number (decimal n ++ s) ≡ some (record { negative = false; magnitude = n; rest = s })
scan_number-decimal n s stop =
    digits_number (decimal n) s (decimal-IsDigit n) (decimal_not_empty n)
    ∙ ap (λ x. some (numeral false x)) (scan_digits-decimal n s stop)

scan_number_minus :
    (c : ℕ) (s : List ℕ)
    → IsDigit c
    → scan_number (b'-' ∷ c ∷ s) ≡ some (numeral true (scan_digits (c ∷ s) 0))
unfolding scan_number skip_spaces scan_sign scan_magnitude
scan_number_minus c s h = rw (h) refl

digits_minus :
    (ds s : List ℕ)
    → All IsDigit ds
    → 0 < length ds
    → scan_number (b'-' ∷ ds ++ s) ≡ some (numeral true (scan_digits (ds ++ s) 0))
digits_minus [] s h l = absurd (omega arith)
digits_minus (d ∷ ds) s h l = scan_number_minus d (ds ++ s) h.0

pub scan_number-minus :
    (n : ℕ) (s : List ℕ)
    → NoDigit s
    → scan_number (b'-' ∷ decimal n ++ s)
      ≡ some (record { negative = true; magnitude = n; rest = s })
scan_number-minus n s stop =
    digits_minus (decimal n) s (decimal-IsDigit n) (decimal_not_empty n)
    ∙ ap (λ x. some (numeral true x)) (scan_digits-decimal n s stop)
