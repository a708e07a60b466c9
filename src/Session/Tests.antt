-- ===== src/Session/Tests.antt =====
-- Tests of the session table and of its theorems.
use awg2_webui.Base.{
  ℕ, ◌<◌, ◌≡◌, refl, true, false, some, none, ◌↔◌, ◌==◌, arith, negsuc, pos, Bool-cases, inl, inr,
  ◌⊎◌,
}
use awg2_webui.Obfs.{off, session_init}
use awg2_webui.Session.{
  Addr, inet, Entry, Table, update, probe, holds, found, session_lookup, session_put, put_slot,
  session_addr_copy, session_addr_equal, session_set_peer_slot_if_index, session_get_peer_slot,
  session_table_size,
}
use awg2_webui.Session.Probe.{IsQuiet, takes, session_lookup-put_self, session_lookup-put_other}
use awg2_webui.Session.Scan.{
  addr_at, session_find_sole_entry, session_find_sole_entry_with_addr, session_find_by_addr,
}
use awg2_webui.Session.Sole.{IsSole, session_find_sole_entry_iff}
use awg2_webui.Session.ByAddr.{HasAddr, session_find_by_addr_complete}

abbrev home : Addr
home = inet 51820 16777343

abbrev away : Addr
away = inet 51821 33554559

abbrev empty_entry : Entry
empty_entry = record {
  sender_index = 0;
  seq = 0;
  peer_slot = negsuc 0;
  valid = false;
  obfs_ready = false;
  obfs_c2s = session_init off 1;
  obfs_s2c = session_init off 2;
  addr = away;
  addr_len = 0;
}

abbrev empty : Table
empty s = empty_entry

-- A table in which slot 5 is in use for index 5.
abbrev one : Table
one = update empty 5 (record {
  sender_index = 5;
  seq = 2;
  peer_slot = pos 3;
  valid = true;
  obfs_ready = false;
  obfs_c2s = session_init off 1;
  obfs_s2c = session_init off 2;
  addr = home;
  addr_len = 16;
})

one-IsQuiet : IsQuiet one
one-IsQuiet s = elim (Bool-cases (s == 5)) [ inl e ↦ ground (arith, e) | inr n ↦ ground (arith, n) ]

-- Another index with the same home slot goes one further, and the first one is still found.
second_put : session_lookup (session_put one 4101 away 16) 4101 ≡ found 6 away 16
unfolding session_lookup session_put probe
second_put = refl

first_kept : session_lookup (session_put one 4101 away 16) 5 ≡ found 5 home 16
unfolding session_lookup session_put probe
first_kept = refl

peer_kept : session_get_peer_slot (session_put one 5 away 16) (some 5) ≡ pos 3
unfolding session_get_peer_slot session_put probe
peer_kept = refl

peer_guarded :
    session_get_peer_slot (session_set_peer_slot_if_index one (some 5) 6 (pos 1)) (some 5) ≡ pos 3
unfolding session_get_peer_slot session_set_peer_slot_if_index
peer_guarded = refl

session_lookup-put_self_example :
    session_lookup (session_put one 4101 away 16) 4101
    ≡ found (put_slot one 4101) (session_addr_copy away 16).0 (session_addr_copy away 16).1
session_lookup-put_self_example = session_lookup-put_self one 4101 away 16 one-IsQuiet

put_slot-one : holds (one (put_slot one 4101)) 5 ≡ false
unfolding put_slot holds probe
put_slot-one = refl

session_lookup-put_other_example :
    session_lookup (session_put one 4101 away 16) 5 ≡ session_lookup one 5
session_lookup-put_other_example =
    session_lookup-put_other one 4101 away 16 5 one-IsQuiet (omega arith) put_slot-one

second_probe_free : takes (one (probe 4101 1)) 4101 ≡ true
unfolding probe
second_probe_free = refl

-- Another entry with another address, and there is no sole one.
two_addresses : session_find_sole_entry (session_put one 4101 away 16) ≡ none
unfolding session_find_sole_entry session_put probe
two_addresses = refl

-- Another entry with the same address, and the first one is still the sole one.
one_address : session_find_sole_entry (session_put one 4101 home 16) ≡ some 5
unfolding session_find_sole_entry session_put probe
one_address = refl

session_find_sole_entry_iff_example :
    ((session_find_sole_entry one ≡ some 5) ↔ IsSole one session_table_size 5)
    × ((session_find_sole_entry_with_addr one ≡ found 5 home 16) ↔ IsSole one session_table_size 5)
unfolding session_addr_copy
session_find_sole_entry_iff_example = session_find_sole_entry_iff one 5 one-IsQuiet

one-home : HasAddr one home 5
unfolding session_addr_equal session_addr_copy
one-home = (refl, refl)

one-before :
    (q : ℕ) → q < 5 → ((one q).valid ≡ false) ⊎ (session_addr_equal (addr_at one q) home ≡ false)
one-before q lt = inl (ground arith)

one-found : session_find_by_addr one home ≡ some 5
one-found = session_find_by_addr_complete one home 5 one-IsQuiet (omega arith) one-home one-before

session_find_by_addr_complete_example : session_find_by_addr one home ≡ some 5
session_find_by_addr_complete_example =
    session_find_by_addr_complete one home 5 one-IsQuiet (omega arith) one-home one-before
