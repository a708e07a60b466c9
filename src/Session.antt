-- ===== src/Session.antt =====
-- src/session_table.h and src/session_table.c: the table of sessions, indexed by the low 12 bits of
-- a sender index with four probes. The array of 4096 entries is a function of the slot; each function
-- of the code is one atomic step here.
pub mod Probe
pub mod Scan
pub mod Sole
pub mod ByAddr
mod Tests
use awg2_webui.Base.{
  ℕ, zero, suc, ◌+◌, ◌%◌, Bool, true, false, not, ◌&&◌, ◌||◌, Option, some, none, List, bytes_eq,
  ltb, ◌==◌, if◌then◌else◌, low_bits, u32, ℤ, pos, negsuc,
}
use awg2_webui.Obfs.{Session}

-- `struct sockaddr_storage`, by its family; all but the families of IP are `unknown`.
pub data Addr : Type 0 where
  inet : (port addr : ℕ) → Addr
  inet6 : (port scope_id : ℕ) (addr : List ℕ) → Addr
  unknown : (family : ℕ) → Addr

-- `session_entry_t`. The two sessions of the disguise are the server mode's; `obfs_ready` tells that they are set.
pub record Entry : Type 0 where
  pub sender_index : ℕ
  pub seq : ℕ
  pub peer_slot : ℤ
  pub valid : Bool
  pub obfs_ready : Bool
  pub obfs_c2s : Session
  pub obfs_s2c : Session
  pub addr : Addr
  pub addr_len : ℕ

abbrev pub Table : Type 0
Table = ℕ → Entry

abbrev pub session_table_size : ℕ
session_table_size = 4096

-- `&sessions[s]` stored to.
abbrev pub update : Table → ℕ → Entry → Table
update t s e q = if q == s then e else t q

-- `sizeof(struct sockaddr_storage)`
abbrev pub storage_size : ℕ
storage_size = 128

-- `session_addr_copy`: the address, and its length cut to the storage. A length covers at least the
-- fields of the address's family, as the lengths that the socket calls return do.
unfoldable pub session_addr_copy : Addr → ℕ → Addr × ℕ
session_addr_copy src src_len = (src, if ltb storage_size src_len then storage_size else src_len)

unfoldable pub session_addr_equal : Addr → Addr → Bool
session_addr_equal (inet p a) (inet q b) = p == q && a == b
session_addr_equal (inet p a) (inet6 q j b) = false
session_addr_equal (inet p a) (unknown g) = false
session_addr_equal (inet6 p i a) (inet6 q j b) = p == q && (i == j && bytes_eq a b)
session_addr_equal (inet6 p i a) (inet q b) = false
session_addr_equal (inet6 p i a) (unknown g) = false
session_addr_equal (unknown f) b = false

-- `(slot + i) & SESSION_TABLE_MASK`, for the home slot of an index.
unfoldable pub probe : ℕ → ℕ → ℕ
probe index i = low_bits (low_bits index 12 + i) 12

-- An entry in use for the index.
unfoldable pub holds : Entry → ℕ → Bool
holds e index = e.valid && e.sender_index == index

-- The probes from `i` on, with `left` of the four to go: the slot of the entry found.
unfoldable pub get_entry_from : Table → ℕ → ℕ → ℕ → Option ℕ
get_entry_from t index i zero = none
get_entry_from t index i (suc left) =
    let rest = get_entry_from t index (i + 1) left in
    if holds (t (probe index i)) index then some (probe index i) else rest

-- `session_get_entry`
unfoldable pub session_get_entry : Table → ℕ → Option ℕ
unfolding get_entry_from
session_get_entry t index = get_entry_from t index 0 4

-- What a lookup comes to: `spinning` while a writer is between its two increments of `seq`.
pub data Found : Type 0 where
  found : (slot : ℕ) (addr : Addr) (addr_len : ℕ) → Found
  missing spinning : Found

unfoldable pub lookup_from : Table → ℕ → ℕ → ℕ → Found
unfolding holds session_addr_copy
lookup_from t index i zero = missing
lookup_from t index i (suc left) =
    let rest = lookup_from t index (i + 1) left in
    let e = t (probe index i) in
    let (addr, len) = session_addr_copy e.addr e.addr_len in
    if not e.valid
    then rest
    else if not (e.sender_index == index)
    then rest
    else if low_bits e.seq 1 == 1
    then spinning
    else found (probe index i) addr len

-- `session_lookup`. The second look at `valid` and `sender_index` sees what the first one saw.
unfoldable pub session_lookup : Table → ℕ → Found
unfolding lookup_from
session_lookup t index = lookup_from t index 0 4

-- The stores of `session_put` to one entry. The peer slot is kept or reset to -1.
unfoldable pub written : Entry → ℕ → Addr → ℕ → Bool → Entry
unfolding session_addr_copy
written e index addr addr_len preserve_peer = record e {
  sender_index = index;
  seq = u32 (u32 (e.seq + 1) + 1);
  peer_slot = if preserve_peer then e.peer_slot else negsuc 0;
  valid = true;
  addr = (session_addr_copy addr addr_len).0;
  addr_len = (session_addr_copy addr addr_len).1;
}

-- The slot that `session_put` writes: the first of the four that is free or has the index, from
-- probe `i` on; else the home slot.
unfoldable pub put_slot_from : Table → ℕ → ℕ → ℕ → ℕ
put_slot_from t index i zero = low_bits index 12
put_slot_from t index i (suc left) =
    let rest = put_slot_from t index (i + 1) left in
    let e = t (probe index i) in
    if not e.valid || e.sender_index == index then probe index i else rest

unfoldable pub put_slot : Table → ℕ → ℕ
unfolding put_slot_from
put_slot t index = put_slot_from t index 0 4

-- `session_put`. Only an entry that held the index keeps its peer.
unfoldable pub session_put : Table → ℕ → Addr → ℕ → Table
unfolding put_slot written holds
session_put t index addr addr_len =
    let s = put_slot t index in update t s (written (t s) index addr addr_len (holds (t s) index))

-- `session_get`: a lookup whose caller does not ask for the entry.
unfoldable pub session_get : Table → ℕ → Found
unfolding session_lookup
session_get t index = session_lookup t index

-- `session_set_peer_slot` and `session_set_peer_slot_if_index`, on the entry of a slot.
unfoldable pub session_set_peer_slot : Table → Option ℕ → ℤ → Table
session_set_peer_slot t none peer = t
session_set_peer_slot t (some s) peer = update t s (record (t s) { peer_slot = peer })

unfoldable pub session_set_peer_slot_if_index : Table → Option ℕ → ℕ → ℤ → Table
unfolding holds
session_set_peer_slot_if_index t none index peer = t
session_set_peer_slot_if_index t (some s) index peer =
    if holds (t s) index then update t s (record (t s) { peer_slot = peer }) else t

unfoldable pub session_get_peer_slot : Table → Option ℕ → ℤ
session_get_peer_slot t none = negsuc 0
session_get_peer_slot t (some s) = (t s).peer_slot
