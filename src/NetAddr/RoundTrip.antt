-- ===== src/NetAddr/RoundTrip.antt =====
-- Printing an address and parsing it again with `net_addr_parse_host_port` of src/net_addr.c.
use mathlib.Core.Bool.{false≢true}
use awg2_webui.Base.{
  or_false, ℕ, ◌+◌, ◌-◌, ◌*◌, ◌≤◌, ◌<◌, ◌≡◌, refl, ap, ◌∙◌, true, false, ◌||◌, some, none, List, [],
  ◌∷◌, ◌++◌, ltb, leb, ◌==◌, if◌then◌else◌, if_true, if_false, length, arith, All, Bool-cases, inl,
  inr, split_at, has_byte, decimal, IsDigit, decimal-IsDigit, decimal_not_empty, value,
  value-decimal, ltb-false_of_le, ==_self,
}
use awg2_webui.NetAddr.{
  port_from, port_of, split_last, with_port, after_bracket, bracketed, plain,
  net_addr_parse_host_port,
}

value_ge : (ds : List ℕ) (acc : ℕ) → acc ≤ value acc ds
value_ge [] acc = omega arith
value_ge (d ∷ ds) acc = omega (arith, value_ge ds (acc * 10 + (d - b'0')))

port_from_digits :
    (ds : List ℕ) (acc : ℕ)
    → All IsDigit ds
    → value acc ds ≤ 65535
    → 0 < value acc ds
    → port_from ds acc ≡ some (value acc ds)
unfolding port_from
port_from_digits [] acc h small pos = if_false (acc == 0) (ground arith) none (some acc)
port_from_digits (d ∷ ds) acc h small pos =
    let digit : IsDigit d = h.0 in
    let low : ltb d b'0' ≡ false = ground (arith, digit) in
    let high : ltb b'9' d ≡ false = ground (arith, digit) in
    let below : acc * 10 + (d - b'0') ≤ value acc (d ∷ ds) = value_ge ds (acc * 10 + (d - b'0')) in
    let fits : ltb 65535 (acc * 10 + (d - b'0')) ≡ false =
      ltb-false_of_le _ _ (omega (arith, below, small)) in
    if_false _ (ap (λ b. b || ltb b'9' d) low ∙ high) _ _
    ∙ if_false _ fits _ _
    ∙ port_from_digits ds (acc * 10 + (d - b'0')) h.1 small pos

port_of_not_empty : (s : List ℕ) → 0 < length s → port_of s ≡ port_from s 0
unfolding port_of
port_of_not_empty [] h = absurd (omega arith)
port_of_not_empty (c ∷ s) h = refl

port_of-decimal : (port : ℕ) → 0 < port → port ≤ 65535 → port_of (decimal port) ≡ some port
port_of-decimal port pos small =
    port_of_not_empty (decimal port) (decimal_not_empty port)
    ∙ port_from_digits (decimal port) 0 (decimal-IsDigit port) (omega (arith, value-decimal port))
        (omega (arith, value-decimal port))
    ∙ ap some (value-decimal port)

-- The first separator, and the last, where there is one only.
split_at-append :
    (sep : ℕ) (xs s : List ℕ)
    → has_byte sep xs ≡ false
    → split_at sep (xs ++ (sep ∷ s)) ≡ some (xs, s)
unfolding split_at has_byte
split_at-append sep [] s h = if_true _ (==_self sep) _ _
split_at-append sep (x ∷ xs) s h =
    let (first, rest) = or_false (x == sep) (has_byte sep xs) h in
    rw (first, split_at-append sep xs s rest) refl

split_last-without : (sep : ℕ) (s : List ℕ) → has_byte sep s ≡ false → split_last sep s ≡ none
unfolding split_last has_byte
split_last-without sep [] h = refl
split_last-without sep (c ∷ s) h =
    let (first, rest) = or_false (c == sep) (has_byte sep s) h in
    rw (split_last-without sep s rest, first) refl

split_last-append :
    (sep : ℕ) (xs s : List ℕ)
    → has_byte sep s ≡ false
    → split_last sep (xs ++ (sep ∷ s)) ≡ some (xs, s)
unfolding split_last
split_last-append sep [] s h = rw (split_last-without sep s h) (if_true _ (==_self sep) _ _)
split_last-append sep (x ∷ xs) s h = rw (split_last-append sep xs s h) refl

no_colon : (c : ℕ) → IsDigit c → (c == b':') ≡ false
no_colon c h = ground arith

digits_no_colon : (ds : List ℕ) → All IsDigit ds → has_byte b':' ds ≡ false
unfolding has_byte
digits_no_colon [] h = refl
digits_no_colon (d ∷ ds) h =
    ap (λ b. b || has_byte b':' ds) (no_colon d h.0) ∙ digits_no_colon ds h.1

-- The address as it is written: a host with a colon in brackets.
unfoldable pub show_host_port : List ℕ → ℕ → List ℕ
show_host_port host port =
    if has_byte b':' host
    then b'[' ∷ host ++ (b']' ∷ b':' ∷ decimal port)
    else host ++ (b':' ∷ decimal port)

parse_not_bracket :
    (hostmax : ℕ) (host s : List ℕ)
    → has_byte b'[' host ≡ false
    → net_addr_parse_host_port hostmax (host ++ (b':' ∷ s))
      ≡ plain hostmax (split_last b':' (host ++ (b':' ∷ s)))
unfolding net_addr_parse_host_port has_byte
parse_not_bracket hostmax [] s h = refl
parse_not_bracket hostmax (c ∷ host) s h =
    let (first, rest) = or_false (c == b'[') (has_byte b'[' host) h in if_false _ first _ _

some_length : (sep : ℕ) (s : List ℕ) → has_byte sep s ≡ true → (length s == 0) ≡ false
unfolding has_byte
some_length sep [] h = absurd (false≢true h)
some_length sep (c ∷ s) h = ground arith

-- A host without brackets that fits its buffer, written with a port from 1 to 65535 and in brackets where
-- it has a colon, is parsed as that host and port.
pub net_addr_parse_host_port-show_host_port :
    (hostmax : ℕ) (host : List ℕ) (port : ℕ)
    → has_byte b'[' host ≡ false
    → has_byte b']' host ≡ false
    → length host < hostmax
    → 0 < port
    → port ≤ 65535
    → net_addr_parse_host_port hostmax (show_host_port host port) ≡ some (host, port)
unfolding show_host_port
net_addr_parse_host_port-show_host_port hostmax host port left right fits pos small =
    let number : port_of (decimal port) ≡ some port = port_of-decimal port pos small in
    let room : leb hostmax (length host) ≡ false = ground (arith, fits) in
    elim (Bool-cases (has_byte b':' host)) [
      | inl colon ↦
          ap (net_addr_parse_host_port hostmax) (if_true _ colon _ _)
          ∙ unfold net_addr_parse_host_port in
            ap (bracketed hostmax) (split_at-append b']' host (b':' ∷ decimal port) right)
            ∙ unfold bracketed after_bracket with_port in
              (if_false _
                  (ap (λ b. b || leb hostmax (length host)) (some_length b':' host colon) ∙ room) _
                  _
                ∙ ap (with_port host) number)
      | inr bare ↦
          ap (net_addr_parse_host_port hostmax) (if_false _ bare _ _)
          ∙ parse_not_bracket hostmax host (decimal port) left
          ∙ ap (plain hostmax) (
              split_last-append b':' host (decimal port)
                (digits_no_colon (decimal port) (decimal-IsDigit port)))
          ∙ unfold plain with_port in
            (if_false _ room _ _ ∙ if_false _ bare _ _ ∙ ap (with_port host) number)
    ]
