-- ===== src/Runtime.antt =====
-- src/config_runtime.c: the strings that the configuration is made of, and its numbers, ranges, modes
-- and ports. A string is a list of bytes other than 0. An error leaves the program, so what a failed
-- parser stored is not modelled.
pub mod Peers
pub mod Listed
pub mod EnvParse
pub mod Silent
pub mod Env
pub mod Parse
mod Tests
use awg2_webui.Base.{
  ℕ, zero, suc, ◌+◌, ◌-◌, ◌^◌, Bool, true, false, not, ◌&&◌, ◌||◌, Option, some, none, List, [],
  ◌∷◌, ◌++◌, ltb, leb, ◌==◌, if◌then◌else◌, length, take, drop, ℤ, pos, negsuc, codes, streqi,
  split_at, has_byte, Numeral, scan_number,
}
use awg2_webui.Transform.{Hrange, Mode, client, gateway, server}

abbrev pub nul : List ℕ → Bool
nul [] = true
nul (c ∷ s) = false

-- The value of a numeral with nothing behind it: `strtoul` fails above ULONG_MAX and negates modulo 2^64.
unfoldable pub unsigned_of : Option Numeral → Option ℕ
unsigned_of none = none
unsigned_of (some x) =
    let v = if x.negative && not (x.magnitude == 0) then 2 ^ 64 - x.magnitude else x.magnitude in
    if leb (2 ^ 64) x.magnitude
    then none
    else if not (nul x.rest)
    then none
    else if leb (2 ^ 32) v
    then none
    else some v

-- `parse_uint32_str`, and `parse_uint32` of src/config_file.c
unfoldable pub parse_uint32_str : List ℕ → Option ℕ
unfolding scan_number unsigned_of
parse_uint32_str s = unsigned_of (scan_number s)

abbrev pub minus : ℕ → ℤ
minus zero = pos zero
minus (suc n) = negsuc n

-- What `strtol` makes of a numeral: `int` is narrower than `long`.
unfoldable pub int_of : Option Numeral → Option ℤ
int_of none = none
int_of (some x) =
    if not (nul x.rest)
    then none
    else if x.negative
    then (if ltb (2 ^ 31) x.magnitude then none else some (minus x.magnitude))
    else (if leb (2 ^ 31) x.magnitude then none else some (pos x.magnitude))

-- `parse_int_strict`, and `parse_int` of src/config_file.c
unfoldable pub parse_int_strict : List ℕ → Option ℤ
unfolding scan_number int_of
parse_int_strict s = int_of (scan_number s)

-- `parse_awg_mode`; `none` is a null pointer.
unfoldable pub parse_awg_mode : Option (List ℕ) → Option Mode
unfolding streqi
parse_awg_mode none = none
parse_awg_mode (some s) =
    if nul s
    then none
    else if streqi s (codes "client")
    then some client
    else if streqi s (codes "gateway")
    then some gateway
    else if streqi s (codes "server")
    then some server
    else none

pub data LogLevel : Type 0 where
  log_none log_error log_info log_debug : LogLevel

abbrev log_level_of : ℕ → Option LogLevel
log_level_of c =
    if c == b'n' || c == b'N'
    then some log_none
    else if c == b'e' || c == b'E'
    then some log_error
    else if c == b'i' || c == b'I'
    then some log_info
    else if c == b'd' || c == b'D'
    then some log_debug
    else none

unfoldable pub parse_log_level : Option (List ℕ) → Option LogLevel
parse_log_level none = none
parse_log_level (some []) = none
parse_log_level (some (c ∷ s)) = log_level_of c

-- `parse_src_port`
unfoldable pub parse_src_port : List ℕ → Option ℤ
unfolding streqi parse_int_strict
parse_src_port s =
    if nul s then none else if streqi s (codes "auto") then some (pos 0) else parse_int_strict s

abbrev pub ordered_range : Option ℕ → Option ℕ → Option Hrange
ordered_range none hi = none
ordered_range (some lo) none = none
ordered_range (some lo) (some hi) = if ltb hi lo then none else some (record { min = lo; max = hi })

unfoldable pub one_value : Option ℕ → Option Hrange
one_value none = none
one_value (some v) = some (record { min = v; max = v })

-- The numbers on both sides of the dash; the left one is copied into 32 bytes. A second dash is refused.
unfoldable pub two_values : List ℕ → List ℕ → Option Hrange
unfolding parse_uint32_str has_byte
two_values left right =
    if nul left || leb 32 (length left)
    then none
    else if has_byte b'-' right
    then none
    else ordered_range (parse_uint32_str left) (parse_uint32_str right)

unfoldable pub parse_hrange_parts : List ℕ → Option (List ℕ × List ℕ) → Option Hrange
unfolding one_value two_values parse_uint32_str
parse_hrange_parts s none = one_value (parse_uint32_str s)
parse_hrange_parts s (some x) = two_values x.0 x.1

-- `parse_hrange_str`
unfoldable pub parse_hrange_str : List ℕ → Option Hrange
unfolding split_at parse_hrange_parts
parse_hrange_str s = parse_hrange_parts s (split_at b'-' s)
