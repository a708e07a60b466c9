-- ===== src/Session/ByAddr.antt =====
-- What `session_find_by_addr` finds (src/session_table.c).
use awg2_webui.Base.{
  ℕ, zero, suc, ◌+◌, ◌≤◌, ◌<◌, ◌≡◌, ◌≢◌, refl, ap, sym, ◌∙◌, Bool, true, false, not, some, ◌==◌,
  if◌then◌else◌, low_bits, arith, inl, inr, ◌⊎◌, Bool-cases, eq_of_==-true, ne_of_==-false,
}
use std.Path.{subst}
use mathlib.Core.Option.{some-injective, none-ne-some}
use awg2_webui.Session.{
  Addr, Table, session_addr_copy, session_addr_equal, Found, found, spinning, session_table_size,
}
use awg2_webui.Session.Probe.{IsQuiet}
use awg2_webui.Session.Scan.{addr_at, entry_of, find_by_addr_from, session_find_by_addr}

-- The tests of one slot, when the scan ends with an entry.
slot_tests :
    (v spins same : Bool) (i r len : ℕ) (cur : Addr) (rest : Found)
    → entry_of
        (if not v then rest else if spins then spinning else if same then found i cur len else rest)
      ≡ some r
    → ((i ≡ r) × (v ≡ true) × (same ≡ true)) ⊎ (entry_of rest ≡ some r)
unfolding entry_of
slot_tests true true same i r len cur rest h = absurd (none-ne-some r h)
slot_tests true false true i r len cur rest h = inl (some-injective i r h, refl, refl)
slot_tests true false false i r len cur rest h = inr h
slot_tests false spins same i r len cur rest h = inr h

-- In use, with the address.
abbrev pub HasAddr : Table → Addr → ℕ → Type 0
HasAddr t addr r = ((t r).valid ≡ true) × (session_addr_equal (addr_at t r) addr ≡ true)

find_by_addr_from_lem :
    (t : Table) (addr : Addr) (i left r : ℕ)
    → entry_of (find_by_addr_from t addr i left) ≡ some r
    → (r < i + left) × HasAddr t addr r
unfolding find_by_addr_from entry_of
find_by_addr_from_lem t addr i zero r h = absurd (none-ne-some r h)
find_by_addr_from_lem t addr i (suc left) r h =
    elim (slot_tests (t i).valid (low_bits (t i).seq 1 == 1) (session_addr_equal (addr_at t i) addr)
      i r (session_addr_copy (t i).addr (t i).addr_len).1 (addr_at t i)
      (find_by_addr_from t addr (i + 1) left) h) [
        | inl (e, v, same) ↦
            subst (λ k. (k < i + suc left) × HasAddr t addr k) e (omega arith, (v, same))
        | inr later ↦
            let (lt, has) = find_by_addr_from_lem t addr (i + 1) left r later in (omega arith, has)
      ]

-- The entry that `session_find_by_addr` returns is in use and has the address.
pub session_find_by_addr_sound :
    (t : Table) (addr : Addr) (r : ℕ)
    → session_find_by_addr t addr ≡ some r
    → (r < session_table_size) × HasAddr t addr r
unfolding session_find_by_addr
session_find_by_addr_sound t addr r h = find_by_addr_from_lem t addr 0 session_table_size r h

find_by_addr_from-hit :
    (t : Table) (addr : Addr) (i left : ℕ)
    → IsQuiet t
    → HasAddr t addr i
    → entry_of (find_by_addr_from t addr i (suc left)) ≡ some i
unfolding find_by_addr_from entry_of
find_by_addr_from-hit t addr i left q (v, same) = ground (arith, q i, v, same)

find_by_addr_from-miss :
    (t : Table) (addr : Addr) (i left : ℕ)
    → IsQuiet t
    → ((t i).valid ≡ false) ⊎ (session_addr_equal (addr_at t i) addr ≡ false)
    → entry_of (find_by_addr_from t addr i (suc left))
      ≡ entry_of (find_by_addr_from t addr (i + 1) left)
unfolding find_by_addr_from entry_of
find_by_addr_from-miss t addr i left q (inl off) = ground (arith, q i, off)
find_by_addr_from-miss t addr i left q (inr other) = ground (arith, q i, other)

find_by_addr_from-first :
    (t : Table) (addr : Addr) (i left r : ℕ)
    → IsQuiet t
    → i ≤ r
    → r < i + left
    → HasAddr t addr r
    → ((q : ℕ) → q < r → ((t q).valid ≡ false) ⊎ (session_addr_equal (addr_at t q) addr ≡ false))
    → entry_of (find_by_addr_from t addr i left) ≡ some r
find_by_addr_from-first t addr i zero r q lo hi has before = absurd (omega arith)
find_by_addr_from-first t addr i (suc left) r q lo hi has before = elim (Bool-cases (i == r)) [
  | inl here ↦
      let e : i ≡ r = eq_of_==-true i r here in
      find_by_addr_from-hit t addr i left q (subst (HasAddr t addr) (sym e) has) ∙ ap some e
  | inr away ↦
      let ne : i ≢ r = ne_of_==-false i r away in
      find_by_addr_from-miss t addr i left q (before i (omega arith))
      ∙ find_by_addr_from-first t addr (i + 1) left r q (omega arith) (omega arith) has before
]

-- In a table at rest `session_find_by_addr` returns the first entry in use that has the address.
pub session_find_by_addr_complete :
    (t : Table) (addr : Addr) (r : ℕ)
    → IsQuiet t
    → r < session_table_size
    → HasAddr t addr r
    → ((q : ℕ) → q < r → ((t q).valid ≡ false) ⊎ (session_addr_equal (addr_at t q) addr ≡ false))
    → session_find_by_addr t addr ≡ some r
unfolding session_find_by_addr
session_find_by_addr_complete t addr r q hi has before =
    find_by_addr_from-first t addr 0 session_table_size r q (omega arith) (omega arith) has before
