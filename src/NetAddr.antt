-- ===== src/NetAddr.antt =====
-- `net_addr_parse_host_port` of src/net_addr.c. What asks the resolver (`net_addr_resolve_host_port`,
-- `net_addr_to_host`) is not modelled.
use std.Path.{subst}
use mathlib.Core.Bool.{true≢false, false≢true}
use mathlib.Core.Option.{none-ne-some, some-injective}
use awg2_webui.Base.{
  ℕ, zero, suc, ◌+◌, ◌-◌, ◌*◌, ◌≤◌, ◌<◌, ◌≡◌, refl, ap, sym, ◌∙◌, Bool, true, false, not, ◌&&◌,
  ◌||◌, Option, some, none, List, [], ◌∷◌, ◌++◌, ltb, leb, ◌==◌, if◌then◌else◌, if_true, if_false,
  length, arith, All, Bool-cases, inl, inr, ◌⊎◌, split_at, has_byte, is_digit, decimal, IsDigit,
  decimal-IsDigit, decimal_not_empty, value, value-decimal,
}
pub mod RoundTrip
mod Tests

-- The loop over the digits, and the test behind it.
unfoldable pub port_from : List ℕ → ℕ → Option ℕ
port_from [] pv = if pv == 0 then none else some pv
port_from (c ∷ s) pv =
    let v = pv * 10 + (c - b'0') in
    let rest = port_from s v in
    if ltb c b'0' || ltb b'9' c then none else if ltb 65535 v then none else rest

unfoldable pub port_of : List ℕ → Option ℕ
unfolding port_from
port_of [] = none
port_of (c ∷ s) = port_from (c ∷ s) 0

-- The strings around the last such byte (`strrchr`).
unfoldable pub split_last : ℕ → List ℕ → Option (List ℕ × List ℕ)
split_last sep [] = none
split_last sep (c ∷ s) = elim (split_last sep s) [
  | some x ↦ some (c ∷ x.0, x.1)
  | none ↦ if c == sep then some ([], s) else none
]

unfoldable pub with_port : List ℕ → Option ℕ → Option (List ℕ × ℕ)
with_port host none = none
with_port host (some port) = some (host, port)

-- Behind the bracket: a colon and the port.
unfoldable pub after_bracket : ℕ → List ℕ → List ℕ → Option (List ℕ × ℕ)
unfolding with_port port_of
after_bracket hostmax host [] = none
after_bracket hostmax host (c ∷ port_str) =
    if not (c == b':')
    then none
    else if length host == 0 || leb hostmax (length host)
    then none
    else with_port host (port_of port_str)

unfoldable pub bracketed : ℕ → Option (List ℕ × List ℕ) → Option (List ℕ × ℕ)
unfolding after_bracket
bracketed hostmax none = none
bracketed hostmax (some x) = after_bracket hostmax x.0 x.1

unfoldable pub plain : ℕ → Option (List ℕ × List ℕ) → Option (List ℕ × ℕ)
unfolding with_port port_of has_byte
plain hostmax none = none
plain hostmax (some x) =
    if leb hostmax (length x.0)
    then none
    else if has_byte b':' x.0
    then none
    else with_port x.0 (port_of x.1)

-- `net_addr_parse_host_port`: the host, stored in `hostmax` bytes, and the port.
unfoldable pub net_addr_parse_host_port : ℕ → List ℕ → Option (List ℕ × ℕ)
unfolding bracketed plain split_at split_last
net_addr_parse_host_port hostmax [] = none
net_addr_parse_host_port hostmax (c ∷ s) =
    if c == b'['
    then bracketed hostmax (split_at b']' s)
    else plain hostmax (split_last b':' (c ∷ s))

port_bounds :
    (s : List ℕ) (pv port : ℕ)
    → pv ≤ 65535
    → port_from s pv ≡ some port
    → (0 < port) × (port ≤ 65535)
unfolding port_from
port_bounds [] pv port h e = elim (Bool-cases (pv == 0)) [
  | inl none_yet ↦ absurd (none-ne-some port (sym (if_true _ none_yet _ _) ∙ e))
  | inr some_port ↦
      subst (λ n. (0 < n) × (n ≤ 65535))
        (some-injective pv port (sym (if_false _ some_port _ _) ∙ e)) (ground arith, h)
]
port_bounds (c ∷ s) pv port h e = elim (Bool-cases (ltb c b'0' || ltb b'9' c)) [
  | inl other ↦ absurd (none-ne-some port (sym (if_true _ other _ _) ∙ e))
  | inr digit ↦ elim (Bool-cases (ltb 65535 (pv * 10 + (c - b'0')))) [
    | inl big ↦
        absurd (none-ne-some port (sym (if_true _ big _ _) ∙ sym (if_false _ digit _ _) ∙ e))
    | inr small ↦
        port_bounds s (pv * 10 + (c - b'0')) port (ground (arith, small))
          (sym (if_false _ small _ _) ∙ sym (if_false _ digit _ _) ∙ e)
  ]
]

port_of_bounds : (s : List ℕ) (port : ℕ) → port_of s ≡ some port → (0 < port) × (port ≤ 65535)
unfolding port_of
port_of_bounds [] port e = absurd (none-ne-some port e)
port_of_bounds (c ∷ s) port e = port_bounds (c ∷ s) 0 port (omega arith) e

-- What the result promises its callers.
abbrev pub Fits : ℕ → List ℕ × ℕ → Type 0
Fits hostmax x = (length x.0 < hostmax) × ((0 < x.1) × (x.1 ≤ 65535))

with_port-Fits :
    (hostmax : ℕ) (host : List ℕ) (p : Option ℕ) (x : List ℕ × ℕ)
    → length host < hostmax
    → ((port : ℕ) → p ≡ some port → (0 < port) × (port ≤ 65535))
    → with_port host p ≡ some x
    → Fits hostmax x
unfolding with_port
with_port-Fits hostmax host none x h k e = absurd (none-ne-some x e)
with_port-Fits hostmax host (some port) x h k e =
    subst (Fits hostmax) (some-injective (host, port) x e) (h, k port refl)

after_bracket-Fits :
    (hostmax : ℕ) (host s : List ℕ) (x : List ℕ × ℕ)
    → after_bracket hostmax host s ≡ some x
    → Fits hostmax x
unfolding after_bracket
after_bracket-Fits hostmax host [] x e = absurd (none-ne-some x e)
after_bracket-Fits hostmax host (c ∷ s) x e = elim (Bool-cases (not (c == b':'))) [
  | inl other ↦ absurd (none-ne-some x (sym (if_true _ other _ _) ∙ e))
  | inr colon ↦ elim (Bool-cases (length host == 0 || leb hostmax (length host))) [
    | inl long ↦ absurd (none-ne-some x (sym (if_true _ long _ _) ∙ sym (if_false _ colon _ _) ∙ e))
    | inr short ↦
        with_port-Fits hostmax host (port_of s) x (ground (arith, short)) (port_of_bounds s)
          (sym (if_false _ short _ _) ∙ sym (if_false _ colon _ _) ∙ e)
  ]
]

bracketed-Fits :
    (hostmax : ℕ) (y : Option (List ℕ × List ℕ)) (x : List ℕ × ℕ)
    → bracketed hostmax y ≡ some x
    → Fits hostmax x
unfolding bracketed
bracketed-Fits hostmax none x e = absurd (none-ne-some x e)
bracketed-Fits hostmax (some y) x e = after_bracket-Fits hostmax y.0 y.1 x e

plain-Fits :
    (hostmax : ℕ) (y : Option (List ℕ × List ℕ)) (x : List ℕ × ℕ)
    → plain hostmax y ≡ some x
    → Fits hostmax x
unfolding plain
plain-Fits hostmax none x e = absurd (none-ne-some x e)
plain-Fits hostmax (some y) x e = elim (Bool-cases (leb hostmax (length y.0))) [
  | inl long ↦ absurd (none-ne-some x (sym (if_true _ long _ _) ∙ e))
  | inr short ↦ elim (Bool-cases (has_byte b':' y.0)) [
    | inl colon ↦
        absurd (none-ne-some x (sym (if_true _ colon _ _) ∙ sym (if_false _ short _ _) ∙ e))
    | inr fine ↦
        with_port-Fits hostmax y.0 (port_of y.1) x (ground (arith, short)) (port_of_bounds y.1)
          (sym (if_false _ fine _ _) ∙ sym (if_false _ short _ _) ∙ e)
  ]
]

-- An address that is accepted has a port from 1 to 65535, and a host that fits its buffer with the zero
-- at its end.
pub net_addr_parse_host_port_bounds :
    (hostmax : ℕ) (s : List ℕ) (x : List ℕ × ℕ)
    → net_addr_parse_host_port hostmax s ≡ some x
    → Fits hostmax x
unfolding net_addr_parse_host_port
net_addr_parse_host_port_bounds hostmax [] x e = absurd (none-ne-some x e)
net_addr_parse_host_port_bounds hostmax (c ∷ s) x e = elim (Bool-cases (c == b'[')) [
  | inl bracket ↦ bracketed-Fits hostmax (split_at b']' s) x (sym (if_true _ bracket _ _) ∙ e)
  | inr other ↦ plain-Fits hostmax (split_last b':' (c ∷ s)) x (sym (if_false _ other _ _) ∙ e)
]
