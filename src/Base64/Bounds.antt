-- ===== src/Base64/Bounds.antt =====
-- The size of what `base64_decode` of src/base64.c stores.
use awg2_webui.Base.{
  ℕ, suc, ◌+◌, ◌*◌, ◌/◌, ◌%◌, ◌≤◌, ◌≡◌, ◌≢◌, refl, ap, sym, ◌∙◌, Bool, true, false, Option, some,
  none, List, [], ◌∷◌, ltb, ◌==◌, if◌then◌else◌, length, arith, ne_of_==-false,
}
use mathlib.Core.Option.{some-injective, none-ne-some}
use awg2_webui.Base64.{
  b64_val, strip_padding, group, last_two, last_three, decode_groups, base64_decode,
}

group-length :
    (a b c d : Option ℕ) (rest : Option (List ℕ)) (n : ℕ)
    → ((out : List ℕ) → rest ≡ some out → length out ≡ n)
    → (out : List ℕ) → group a b c d rest ≡ some out
    → length out ≡ n + 3
unfolding group
group-length (some a) (some b) (some c) (some d) (some tail) n h out e =
    sym (ap length (some-injective _ out e))
    ∙ ap (λ k. suc (suc (suc k))) (h tail refl)
    ∙ omega arith
group-length (some a) (some b) (some c) (some d) none n h out e = absurd (none-ne-some out e)
group-length (some a) (some b) (some c) none rest n h out e = absurd (none-ne-some out e)
group-length (some a) (some b) none d rest n h out e = absurd (none-ne-some out e)
group-length (some a) none c d rest n h out e = absurd (none-ne-some out e)
group-length none b c d rest n h out e = absurd (none-ne-some out e)

last_two-length : (a b : Option ℕ) (out : List ℕ) → last_two a b ≡ some out → length out ≡ 1
unfolding last_two
last_two-length (some a) (some b) out e = sym (ap length (some-injective _ out e))
last_two-length (some a) none out e = absurd (none-ne-some out e)
last_two-length none b out e = absurd (none-ne-some out e)

last_three-length : (a b c : Option ℕ) (out : List ℕ) → last_three a b c ≡ some out → length out ≡ 2
unfolding last_three
last_three-length (some a) (some b) (some c) out e = sym (ap length (some-injective _ out e))
last_three-length (some a) (some b) none out e = absurd (none-ne-some out e)
last_three-length (some a) none c out e = absurd (none-ne-some out e)
last_three-length none b c out e = absurd (none-ne-some out e)

decode_groups-length :
    (input out : List ℕ) → decode_groups input ≡ some out → length out ≡ length input * 3 / 4
unfolding decode_groups
decode_groups-length [] out e = sym (ap length (some-injective _ out e))
decode_groups-length (a ∷ []) out e = sym (ap length (some-injective _ out e))
decode_groups-length (a ∷ b ∷ []) out e = last_two-length (b64_val a) (b64_val b) out e
decode_groups-length (a ∷ b ∷ c ∷ []) out e =
    last_three-length (b64_val a) (b64_val b) (b64_val c) out e
decode_groups-length (a ∷ b ∷ c ∷ d ∷ rest) out e =
    group-length (b64_val a) (b64_val b) (b64_val c) (b64_val d) (decode_groups rest)
      (length rest * 3 / 4) (λ tail h. decode_groups-length rest tail h) out e
    ∙ omega arith

guards-some :
    (tests fits : Bool) (result : Option (List ℕ)) (out : List ℕ)
    → (if tests then none else if fits then none else result) ≡ some out
    → (tests ≡ false) × (fits ≡ false) × (result ≡ some out)
guards-some true fits result out h = absurd (none-ne-some out h)
guards-some false true result out h = absurd (none-ne-some out h)
guards-some false false result out h = (refl, refl, h)

-- What a call that succeeds stores fits the buffer, and is as long as the input without its padding
-- calls for; that input is not one character more than a multiple of four.
pub base64_decode_bounds :
    (input out : List ℕ) (outmax : ℕ)
    → base64_decode input outmax ≡ some out
    → (length out ≤ outmax)
      × (length out ≡ length (strip_padding input) * 3 / 4)
      × (length (strip_padding input) % 4 ≢ 1)
unfolding base64_decode
base64_decode_bounds input out outmax h =
    let n : ℕ = length (strip_padding input) in
    let (rem, fits, e) =
      guards-some (n % 4 == 1) (ltb outmax (n * 3 / 4)) (decode_groups (strip_padding input)) out
        h in
    let size : length out ≡ n * 3 / 4 = decode_groups-length (strip_padding input) out e in
    (ground arith, size, ne_of_==-false (n % 4) 1 rem)
