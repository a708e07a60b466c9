-- ===== src/Session/Scan.antt =====
-- The scans of the whole table (src/session_table.c): `session_find_sole_entry_with_addr`,
-- `session_find_sole_entry`, `session_find_sole_client` and `session_find_by_addr`.
use awg2_webui.Base.{
  ℕ, zero, suc, ◌+◌, Bool, true, not, Option, some, none, ◌==◌, if◌then◌else◌, low_bits,
}
use awg2_webui.Session.{
  Addr, Table, session_addr_copy, session_addr_equal, Found, found, missing, spinning,
  session_table_size,
}

abbrev pub addr_at : Table → ℕ → Addr
addr_at t s = (session_addr_copy (t s).addr (t s).addr_len).0

-- What the scan comes to with the first entry in use, if there is one.
unfoldable pub sole_result : Table → Option ℕ → Found
unfolding session_addr_copy
sole_result t none = missing
sole_result t (some s) =
    let (addr, len) = session_addr_copy (t s).addr (t s).addr_len in found s addr len

-- An entry in use, against the first one: does the scan go on?
unfoldable pub agrees : Table → Option ℕ → ℕ → Bool
unfolding session_addr_copy session_addr_equal
agrees t none i = true
agrees t (some s) i = session_addr_equal (addr_at t s) (addr_at t i)

unfoldable pub first_of : Option ℕ → ℕ → Option ℕ
first_of none i = some i
first_of (some s) i = some s

-- The loop of `session_find_sole_entry_with_addr` from slot `i` on, with `left` slots to go.
unfoldable pub find_sole_from : Table → ℕ → ℕ → Option ℕ → Found
unfolding sole_result agrees first_of
find_sole_from t i zero first = sole_result t first
find_sole_from t i (suc left) first =
    let skip = find_sole_from t (i + 1) left first in
    let next = find_sole_from t (i + 1) left (first_of first i) in
    if not (t i).valid
    then skip
    else if low_bits (t i).seq 1 == 1
    then spinning
    else if agrees t first i
    then next
    else missing

unfoldable pub session_find_sole_entry_with_addr : Table → Found
unfolding find_sole_from
session_find_sole_entry_with_addr t = find_sole_from t 0 session_table_size none

unfoldable pub entry_of : Found → Option ℕ
entry_of (found s addr len) = some s
entry_of missing = none
entry_of spinning = none

unfoldable pub session_find_sole_entry : Table → Option ℕ
unfolding entry_of session_find_sole_entry_with_addr
session_find_sole_entry t = entry_of (session_find_sole_entry_with_addr t)

unfoldable pub session_find_sole_client : Table → Found
unfolding session_find_sole_entry_with_addr
session_find_sole_client t = session_find_sole_entry_with_addr t

-- The loop of `session_find_by_addr`.
unfoldable pub find_by_addr_from : Table → Addr → ℕ → ℕ → Found
unfolding session_addr_copy session_addr_equal
find_by_addr_from t addr i zero = missing
find_by_addr_from t addr i (suc left) =
    let rest = find_by_addr_from t addr (i + 1) left in
    let (cur, len) = session_addr_copy (t i).addr (t i).addr_len in
    if not (t i).valid
    then rest
    else if low_bits (t i).seq 1 == 1
    then spinning
    else if session_addr_equal cur addr
    then found i cur len
    else rest

unfoldable pub session_find_by_addr : Table → Addr → Option ℕ
unfolding entry_of find_by_addr_from
session_find_by_addr t addr = entry_of (find_by_addr_from t addr 0 session_table_size)
