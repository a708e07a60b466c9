-- ===== src/Session/Probe.antt =====
-- Lookups after `session_put` (src/session_table.c).
use awg2_webui.Base.{
  ℕ, zero, suc, ◌+◌, ◌%◌, ◌≤◌, ◌<◌, ◌≡◌, ◌≢◌, refl, ap, sym, ◌∙◌, Bool, true, false, not, ◌||◌,
  Option, some, none, ◌==◌, low_bits, arith, inl, inr, ◌⊎◌, Bool-cases, ==_self, eq_of_==-true,
  ne_of_==-false,
}
use awg2_webui.Session.{
  Addr, Entry, Table, update, session_addr_copy, probe, holds, get_entry_from, session_get_entry,
  Found, found, missing, lookup_from, session_lookup, written, put_slot_from, put_slot, session_put,
  session_table_size,
}

-- At rest no writer is at work.
abbrev pub IsQuiet : Table → Type 0
IsQuiet t = (s : ℕ) → (t s).seq % 2 ≡ 0

-- `session_put` leaves every sequence number of a table at rest even, the wrap-around at 2^32 included.
pub session_put-IsQuiet :
    (t : Table) (index : ℕ) (addr : Addr) (len : ℕ)
    → IsQuiet t
    → IsQuiet (session_put t index addr len)
unfolding session_put
session_put-IsQuiet t index addr len q s = ground (arith, q s, q (put_slot t index))

probe-lt : (index i : ℕ) → probe index i < session_table_size
unfolding probe
probe-lt index i = omega arith

put_slot_from-lt :
    (t : Table) (index i left : ℕ) → put_slot_from t index i left < session_table_size
unfolding put_slot_from
put_slot_from-lt t index i zero = omega arith
put_slot_from-lt t index i (suc left) =
    ground (arith, probe-lt index i, put_slot_from-lt t index (i + 1) left)

abbrev pub seen_at : Table → ℕ → Found
seen_at t s =
    found s (session_addr_copy (t s).addr (t s).addr_len).0
      (session_addr_copy (t s).addr (t s).addr_len).1

abbrev pub seen : Table → Option ℕ → Found
seen t none = missing
seen t (some s) = seen_at t s

-- In a quiet table a lookup finds the entry that `session_get_entry` finds, with its address.
lookup_from-get_entry_from :
    (t : Table) (index i left : ℕ)
    → IsQuiet t
    → lookup_from t index i left ≡ seen t (get_entry_from t index i left)
unfolding lookup_from get_entry_from
lookup_from-get_entry_from t index i zero q = refl
lookup_from-get_entry_from t index i (suc left) q =
    ground (arith, q (probe index i), lookup_from-get_entry_from t index (i + 1) left q)

pub session_lookup-get_entry :
    (t : Table) (index : ℕ)
    → IsQuiet t
    → session_lookup t index ≡ seen t (session_get_entry t index)
unfolding session_lookup session_get_entry
session_lookup-get_entry t index q = lookup_from-get_entry_from t index 0 4 q

-- The entry was looked at by `session_put` and is free or has the index.
abbrev pub takes : Entry → ℕ → Bool
takes e index = not e.valid || e.sender_index == index

holds_of_takes : (e : Entry) (x : ℕ) → takes e x ≡ false → holds e x ≡ false
unfolding holds
holds_of_takes e x h = ground arith

holds-update_self :
    (t : Table) (s q y : ℕ) (e : Entry) → q ≡ s → holds (update t s e q) y ≡ holds e y
holds-update_self t s q y e h = rw (h, ==_self s)

holds-update_ne :
    (t : Table) (s q y : ℕ) (e : Entry)
    → (q == s) ≡ false
    → holds (update t s e q) y ≡ holds (t q) y
holds-update_ne t s q y e h = rw h

module _ (t : Table) (x : ℕ) (e : Entry) (mine : holds e x ≡ true) where
  -- The first probe that `session_put` takes is the first one that a lookup finds afterwards.
  get_entry_from-update :
      (i left s : ℕ)
      → s ≡ put_slot_from t x i left
      → (get_entry_from (update t s e) x i left ≡ some s) ⊎ (s ≡ low_bits x 12)
  unfolding get_entry_from put_slot_from
  get_entry_from-update i zero s h = inr h
  get_entry_from-update i (suc left) s h = elim (Bool-cases (probe x i == s)) [
    | inl here ↦
        let e' : probe x i ≡ s = eq_of_==-true (probe x i) s here in
        inl (rw (holds-update_self t s (probe x i) x e e', mine) (ap some e'))
    | inr away ↦ elim (Bool-cases (takes (t (probe x i)) x)) [
      | inl free ↦ absurd (ne_of_==-false (probe x i) s away (ground arith))
      | inr busy ↦
          rw (holds-update_ne t s (probe x i) x e away, holds_of_takes (t (probe x i)) x busy)
            (get_entry_from-update (i + 1) left s (ground arith))
    ]
  ]

  session_get_entry-update :
      (s : ℕ) → s ≡ put_slot t x → session_get_entry (update t s e) x ≡ some s
  unfolding session_get_entry put_slot get_entry_from
  session_get_entry-update s h = elim (get_entry_from-update 0 4 s h) [
    | inl hit ↦ hit
    | inr home ↦
        let e' : probe x 0 ≡ s = unfold probe in omega (arith, home) in
        rw (holds-update_self t s (probe x 0) x e e', mine) (ap some e')
  ]

lookup_from-skip :
    (t : Table) (y i left : ℕ)
    → holds (t (probe y i)) y ≡ false
    → lookup_from t y i (suc left) ≡ lookup_from t y (i + 1) left
unfolding lookup_from
lookup_from-skip t y i left h = ground arith

later_probe :
    (t : Table) (x i j : ℕ)
    → takes (t (probe x j)) x ≡ true
    → takes (t (probe x i)) x ≡ false
    → i ≤ j
    → i < j
later_probe t x i j free busy lo = elim (Bool-cases (i == j)) [
  | inl here ↦
      let same : takes (t (probe x i)) x ≡ takes (t (probe x j)) x =
        ap (λ k. takes (t (probe x k)) x) (eq_of_==-true i j here) in
      absurd (ground (arith, same))
  | inr away ↦ let ne : i ≢ j = ne_of_==-false i j away in omega arith
]

put_slot_from-skip :
    (t : Table) (x i left : ℕ)
    → takes (t (probe x i)) x ≡ false
    → put_slot_from t x i (suc left) ≡ put_slot_from t x (i + 1) left
unfolding put_slot_from
put_slot_from-skip t x i left h = rw (h) refl

put_slot_from-take :
    (t : Table) (x i left : ℕ)
    → takes (t (probe x i)) x ≡ true
    → put_slot_from t x i (suc left) ≡ probe x i
unfolding put_slot_from
put_slot_from-take t x i left h = rw (h) refl

takes-put_slot_from :
    (t : Table) (x i left j : ℕ)
    → takes (t (probe x j)) x ≡ true
    → i ≤ j
    → j < i + left
    → takes (t (put_slot_from t x i left)) x ≡ true
takes-put_slot_from t x i zero j free lo hi = absurd (omega arith)
takes-put_slot_from t x i (suc left) j free lo hi = elim (Bool-cases (takes (t (probe x i)) x)) [
  | inl now ↦ ap (λ k. takes (t k) x) (put_slot_from-take t x i left now) ∙ now
  | inr later ↦
      let on : i < j = later_probe t x i j free later lo in
      let lo' : i + 1 ≤ j = omega arith in
      let hi' : j < i + 1 + left = omega arith in
      ap (λ k. takes (t k) x) (put_slot_from-skip t x i left later)
      ∙ takes-put_slot_from t x (i + 1) left j free lo' hi'
]

not_taken : (e : Entry) (x y : ℕ) → y ≢ x → takes e x ≡ true → holds e y ≡ false
unfolding holds
not_taken e x y ne h = ground arith

module _ (t : Table) (s y : ℕ) (e : Entry) (other : holds e y ≡ false)
    (spared : holds (t s) y ≡ false) where
  get_entry_from-update_other :
      (i left : ℕ) → get_entry_from (update t s e) y i left ≡ get_entry_from t y i left
  unfolding get_entry_from
  get_entry_from-update_other i zero = refl
  get_entry_from-update_other i (suc left) =
      ground (arith, get_entry_from-update_other (i + 1) left)

  lookup_from-update_other :
      (i left : ℕ) → lookup_from (update t s e) y i left ≡ lookup_from t y i left
  unfolding lookup_from
  lookup_from-update_other i zero = refl
  lookup_from-update_other i (suc left) = elim (Bool-cases (probe y i == s)) [
    | inl here ↦
        let e' : probe y i ≡ s = eq_of_==-true (probe y i) s here in
        lookup_from-skip (update t s e) y i left (holds-update_self t s (probe y i) y e e' ∙ other)
        ∙ lookup_from-update_other (i + 1) left
        ∙ sym (lookup_from-skip t y i left (ap (λ q. holds (t q) y) e' ∙ spared))
    | inr away ↦ rw (away, lookup_from-update_other (i + 1) left) refl
  ]

  session_get_entry-update_other : session_get_entry (update t s e) y ≡ session_get_entry t y
  unfolding session_get_entry
  session_get_entry-update_other = get_entry_from-update_other 0 4

-- The entry that `session_put` writes is for the index and for no other.
written-holds :
    (e : Entry) (x y : ℕ) (addr : Addr) (len : ℕ) (keep : Bool)
    → holds (written e x addr len keep) y ≡ (x == y)
unfolding holds written
written-holds e x y addr len keep = ground arith

module _ (t : Table) (x : ℕ) (addr : Addr) (len : ℕ) where
  -- After `session_put` on a table at rest a lookup of the index finds the slot that was written, with
  -- the new address, its length cut to the storage.
  pub session_lookup-put_self :
      IsQuiet t
      → session_lookup (session_put t x addr len) x
        ≡ found (put_slot t x) (session_addr_copy addr len).0 (session_addr_copy addr len).1
  session_lookup-put_self q =
      session_lookup-get_entry (session_put t x addr len) x (session_put-IsQuiet t x addr len q)
      ∙ ap (seen (session_put t x addr len)) found_slot
      ∙ stored
    where
      s : ℕ
      s = put_slot t x

      found_slot : session_get_entry (session_put t x addr len) x ≡ some s
      found_slot =
          unfold session_put in
          session_get_entry-update t x (written (t s) x addr len (holds (t s) x))
            (written-holds (t s) x x addr len (holds (t s) x) ∙ ==_self x) s refl

      stored :
          seen_at (session_put t x addr len) s
          ≡ found s (session_addr_copy addr len).0 (session_addr_copy addr len).1
      stored = unfold session_put in unfold written in unfold session_addr_copy in ground (arith)

  -- After `session_put` on a table at rest the session of another index is looked up as before, unless
  -- the entry that was written was its own.
  pub session_lookup-put_other :
      (y : ℕ)
      → IsQuiet t
      → y ≢ x
      → holds (t (put_slot t x)) y ≡ false
      → session_lookup (session_put t x addr len) y ≡ session_lookup t y
  unfolding session_lookup session_put
  session_lookup-put_other y q ne spared =
      lookup_from-update_other t (put_slot t x) y _
        (written-holds (t (put_slot t x)) x y addr len (holds (t (put_slot t x)) x) ∙ ground arith)
        spared 0 4

  -- While one of the four probes is free or has the index, `session_put` takes no other index's entry.
  pub session_put_spares :
      (y i : ℕ)
      → y ≢ x
      → i < 4
      → takes (t (probe x i)) x ≡ true
      → holds (t (put_slot t x)) y ≡ false
  unfolding put_slot
  session_put_spares y i ne h free =
      not_taken (t (put_slot_from t x 0 4)) x y ne
        (takes-put_slot_from t x 0 4 i free (omega arith) (omega arith))
