-- ===== src/Session/Sole.antt =====
-- What `session_find_sole_entry` finds (src/session_table.c).
use awg2_webui.Base.{
  ℕ, zero, suc, ◌+◌, ◌≤◌, ◌<◌, ◌≡◌, ◌≢◌, refl, ap, sym, ◌∙◌, Bool, true, false, not, Option, some,
  none, ◌==◌, ◌↔◌, if◌then◌else◌, low_bits, arith, inl, inr, Bool-cases, eq_of_==-true,
  ne_of_==-false,
}
use std.Path.{subst}
use mathlib.Core.Option.{some-injective, none-ne-some}
use awg2_webui.Session.{
  Table, session_addr_copy, session_addr_equal, Found, found, missing, spinning, session_table_size,
}
use awg2_webui.Session.Probe.{IsQuiet}
use awg2_webui.Session.Scan.{
  addr_at, sole_result, agrees, first_of, find_sole_from, session_find_sole_entry_with_addr,
  entry_of, session_find_sole_entry,
}

-- Every entry in use between two slots has the address of slot `s`, and is `s` or comes after it.
abbrev pub Agrees : Table → ℕ → ℕ → ℕ → Type 0
Agrees t s i left =
    (q : ℕ)
    → i ≤ q
    → q < i + left
    → (t q).valid ≡ true
    → session_addr_equal (addr_at t s) (addr_at t q) ≡ true

abbrev pub NoneValid : Table → ℕ → ℕ → Type 0
NoneValid t i left = (q : ℕ) → i ≤ q → q < i + left → (t q).valid ≡ false

addr_at-same : (t : Table) (i : ℕ) → addr_at t i ≡ (t i).addr
unfolding session_addr_copy
addr_at-same t i = refl

-- With a first entry, the scan ends with it exactly when the rest agrees.
find_sole_from-some :
    (t : Table) (i left s : ℕ)
    → IsQuiet t
    → Agrees t s i left
    → find_sole_from t i left (some s) ≡ sole_result t (some s)
unfolding find_sole_from agrees first_of
find_sole_from-some t i zero s q all = refl
find_sole_from-some t i (suc left) s q all =
    let rest : find_sole_from t (i + 1) left (some s) ≡ sole_result t (some s) =
      find_sole_from-some t (i + 1) left s q (λ k lo hi v. all k (omega arith) (omega arith) v) in
    elim (Bool-cases (t i).valid) [
      | inl v ↦
          let same : session_addr_equal (addr_at t s) (addr_at t i) ≡ true =
            all i (omega arith) (omega arith) v in
          ground (arith, q i, rest, same)
      | inr v ↦ ground (arith, rest)
    ]

skip_one :
    {P : ℕ → Type 0} (i left q : ℕ)
    → (i ≡ q → P q)
    → ((k : ℕ) → i + 1 ≤ k → k < i + 1 + left → P k)
    → i ≤ q
    → q < i + suc left
    → P q
skip_one i left q here later lo hi = elim (Bool-cases (i == q)) [
  | inl e ↦ here (eq_of_==-true i q e)
  | inr n ↦ let ne : i ≢ q = ne_of_==-false i q n in later q (omega arith) (omega arith)
]

agrees-some :
    (t : Table) (s i : ℕ) → agrees t (some s) i ≡ session_addr_equal (addr_at t s) (addr_at t i)
unfolding agrees
agrees-some t s i = refl

find_sole_from-end :
    (t : Table) (i r : ℕ) (first : Option ℕ)
    → entry_of (find_sole_from t i zero first) ≡ some r
    → first ≡ some r
unfolding find_sole_from sole_result entry_of
find_sole_from-end t i r none h = h
find_sole_from-end t i r (some s) h = h

entry_of-sole_result : (t : Table) (s : ℕ) → entry_of (sole_result t (some s)) ≡ some s
unfolding entry_of sole_result
entry_of-sole_result t s = refl

-- The tests of one slot, when the scan ends with an entry.
slot_tests :
    (v spins goes : Bool) (skip next : Found) (r : ℕ)
    → entry_of (if not v then skip else if spins then spinning else if goes then next else missing)
      ≡ some r
    → (v ≡ true → (goes ≡ true) × (entry_of next ≡ some r)) × (v ≡ false → entry_of skip ≡ some r)
unfolding entry_of
slot_tests true true goes skip next r h = absurd (none-ne-some _ h)
slot_tests true false true skip next r h = (λ e. (refl, h), λ e. absurd (ground arith))
slot_tests true false false skip next r h = absurd (none-ne-some _ h)
slot_tests false spins goes skip next r h = (λ e. absurd (ground arith), λ e. h)

sole_step :
    (t : Table) (i left s r : ℕ)
    → entry_of (find_sole_from t i (suc left) (some s)) ≡ some r
    → (entry_of (find_sole_from t (i + 1) left (some s)) ≡ some r)
      × ((t i).valid ≡ true → session_addr_equal (addr_at t s) (addr_at t i) ≡ true)
unfolding find_sole_from first_of
sole_step t i left s r h =
    let rest : Found = find_sole_from t (i + 1) left (some s) in
    let (on, off) =
      slot_tests (t i).valid (low_bits (t i).seq 1 == 1) (agrees t (some s) i) rest rest r h in
    (
      elim (Bool-cases (t i).valid) [ inl v ↦ (on v).1 | inr v ↦ off v ],
      λ v. sym (agrees-some t s i) ∙ (on v).0,
    )

-- With a first entry, a scan that ends with an entry ends with it, and the rest agreed.
find_sole_from-some_sound :
    (t : Table) (i left s r : ℕ)
    → entry_of (find_sole_from t i left (some s)) ≡ some r
    → (r ≡ s) × Agrees t s i left
find_sole_from-some_sound t i zero s r h = (
  sym (some-injective s r (find_sole_from-end t i r (some s) h)),
  λ q lo hi v. absurd (omega (arith, lo, hi)),
)
find_sole_from-some_sound t i (suc left) s r h =
    let (rest, same) = sole_step t i left s r h in
    let (e, all) = find_sole_from-some_sound t (i + 1) left s r rest in
    (
      e,
      λ q lo hi.
          skip_one
            {P = λ k. (t k).valid ≡ true → session_addr_equal (addr_at t s) (addr_at t k) ≡ true} i
            left q
            (λ here.
              subst
                (λ k. (t k).valid ≡ true → session_addr_equal (addr_at t s) (addr_at t k) ≡ true)
                here same)
            all lo hi,
    )

NoneValid-snoc : (t : Table) (i : ℕ) → NoneValid t 0 i → (t i).valid ≡ false → NoneValid t 0 (i + 1)
NoneValid-snoc t i none_before off q lo hi = elim (Bool-cases (q == i)) [
  | inl e ↦ subst (λ k. (t k).valid ≡ false) (sym (eq_of_==-true q i e)) off
  | inr n ↦ let ne : q ≢ i = ne_of_==-false q i n in none_before q lo (omega arith)
]

-- The slot is the first one in use, and the later ones in use have its address.
abbrev pub IsSole : Table → ℕ → ℕ → Type 0
IsSole t n r =
    (r < n)
    × ((t r).valid ≡ true)
    × ((q : ℕ) → q < r → (t q).valid ≡ false)
    × ((q : ℕ)
        → r < q
        → q < n
        → (t q).valid ≡ true
        → session_addr_equal (addr_at t r) (addr_at t q) ≡ true)

IsSole-at :
    (t : Table) (i left r : ℕ)
    → (t i).valid ≡ true
    → NoneValid t 0 i
    → (r ≡ i) × Agrees t i (i + 1) left
    → IsSole t (i + suc left) r
IsSole-at t i left r v before (e, all) = subst (IsSole t (i + suc left)) (sym e) (
  omega arith,
  v,
  λ q lt. before q (omega arith) (omega arith),
  λ q lo hi. all q (omega arith) (omega arith),
)

-- Before an entry is found.
find_sole_from-none_sound :
    (t : Table) (i left r : ℕ)
    → NoneValid t 0 i
    → entry_of (find_sole_from t i left none) ≡ some r
    → IsSole t (i + left) r
find_sole_from-none_sound t i zero r before h =
    absurd (none-ne-some r (find_sole_from-end t i r none h))
find_sole_from-none_sound t i (suc left) r before h = elim (Bool-cases (t i).valid) [
  | inl v ↦
      IsSole-at t i left r v before (find_sole_from-some_sound t (i + 1) left i r ((step.0 v).1))
  | inr v ↦
      let shift : i + 1 + left ≡ i + suc left = omega arith in
      subst (λ n. IsSole t n r) shift
        (find_sole_from-none_sound t (i + 1) left r (NoneValid-snoc t i before v) (step.1 v))
]
  where
    step :
        ((t i).valid ≡ true
          → (agrees t none i ≡ true) × (entry_of (find_sole_from t (i + 1) left (some i)) ≡ some r))
        × ((t i).valid ≡ false → entry_of (find_sole_from t (i + 1) left none) ≡ some r)
    step =
        slot_tests (t i).valid (low_bits (t i).seq 1 == 1) (agrees t none i) _ _ r
          (unfold find_sole_from in unfold first_of in h)

-- The entry that `session_find_sole_entry` returns is the first one in use, and every other entry in
-- use has its address.
session_find_sole_entry_sound :
    (t : Table) (r : ℕ) → session_find_sole_entry t ≡ some r → IsSole t session_table_size r
unfolding session_find_sole_entry session_find_sole_entry_with_addr
session_find_sole_entry_sound t r h =
    find_sole_from-none_sound t 0 session_table_size r (λ q lo hi. absurd (omega (arith, lo, hi))) h

find_sole_from-pass :
    (t : Table) (i left : ℕ) (first : Option ℕ)
    → (t i).valid ≡ false
    → find_sole_from t i (suc left) first ≡ find_sole_from t (i + 1) left first
unfolding find_sole_from
find_sole_from-pass t i left first off = rw (off) refl

find_sole_from-enter :
    (t : Table) (i left : ℕ)
    → IsQuiet t
    → (t i).valid ≡ true
    → find_sole_from t i (suc left) none ≡ find_sole_from t (i + 1) left (some i)
unfolding find_sole_from first_of agrees
find_sole_from-enter t i left quiet on = ground (arith, quiet i)

find_sole_from-first :
    (t : Table) (i left r : ℕ)
    → IsQuiet t
    → i ≤ r
    → IsSole t (i + left) r
    → find_sole_from t i left none ≡ sole_result t (some r)
find_sole_from-first t i zero r q le (lt, v, before, after) = absurd (omega arith)
find_sole_from-first t i (suc left) r q le (lt, v, before, after) = elim (Bool-cases (i == r)) [
  | inl here ↦
      let e : i ≡ r = eq_of_==-true i r here in
      find_sole_from-enter t i left q (ap (λ k. (t k).valid) e ∙ v)
      ∙ ap (λ k. find_sole_from t (i + 1) left (some k)) e
      ∙ find_sole_from-some t (i + 1) left r q (λ k lo hi w. after k (omega arith) (omega arith) w)
  | inr away ↦
      let ne : i ≢ r = ne_of_==-false i r away in
      let shift : i + suc left ≡ i + 1 + left = omega arith in
      find_sole_from-pass t i left none (before i (omega arith))
      ∙ find_sole_from-first t (i + 1) left r q (omega arith)
          (subst (λ n. IsSole t n r) shift (lt, v, before, after))
]

-- In a table at rest, when all later entries in use have the address of the first one in use, that
-- first entry is what `session_find_sole_entry` returns.
session_find_sole_entry_complete :
    (t : Table) (r : ℕ)
    → IsQuiet t
    → IsSole t session_table_size r
    → session_find_sole_entry t ≡ some r
unfolding session_find_sole_entry session_find_sole_entry_with_addr
session_find_sole_entry_complete t r q sole =
    ap entry_of (find_sole_from-first t 0 session_table_size r q (omega arith) sole)
    ∙ entry_of-sole_result t r

sole_result-some :
    (t : Table) (r : ℕ)
    → sole_result t (some r) ≡ found r (addr_at t r) (session_addr_copy (t r).addr (t r).addr_len).1
unfolding sole_result session_addr_copy
sole_result-some t r = refl

-- The address that comes with the sole entry is the one stored in it.
session_find_sole_entry_with_addr_complete :
    (t : Table) (r : ℕ)
    → IsQuiet t
    → IsSole t session_table_size r
    → session_find_sole_entry_with_addr t
      ≡ found r (addr_at t r) (session_addr_copy (t r).addr (t r).addr_len).1
unfolding session_find_sole_entry_with_addr
session_find_sole_entry_with_addr_complete t r q sole =
    find_sole_from-first t 0 session_table_size r q (omega arith) sole ∙ sole_result-some t r

session_find_sole_entry-found :
    (t : Table) (r : ℕ)
    → session_find_sole_entry_with_addr t
      ≡ found r (addr_at t r) (session_addr_copy (t r).addr (t r).addr_len).1
    → session_find_sole_entry t ≡ some r
unfolding session_find_sole_entry entry_of
session_find_sole_entry-found t r h = ap entry_of h

-- In a table at rest, `session_find_sole_entry` returns a slot exactly when the slot is the first one
-- in use and every later one in use has its address; and exactly then
-- `session_find_sole_entry_with_addr` returns the slot with what `session_addr_copy` makes of the
-- address and the length stored in it.
pub session_find_sole_entry_iff :
    (t : Table) (r : ℕ)
    → IsQuiet t
    → ((session_find_sole_entry t ≡ some r) ↔ IsSole t session_table_size r)
      × ((session_find_sole_entry_with_addr t
            ≡ found r (addr_at t r) (session_addr_copy (t r).addr (t r).addr_len).1)
          ↔ IsSole t session_table_size r)
session_find_sole_entry_iff t r q = (
  (session_find_sole_entry_sound t r, session_find_sole_entry_complete t r q),
  (
    λ h. session_find_sole_entry_sound t r (session_find_sole_entry-found t r h),
    session_find_sole_entry_with_addr_complete t r q,
  ),
)
