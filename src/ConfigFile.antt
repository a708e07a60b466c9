-- ===== src/ConfigFile.antt =====
-- src/config_file.c: the configuration file, given as the bytes that it holds. The Curve25519 public key
-- of a private key is a parameter. The log is not modelled; an error ends the program, so what was
-- stored before it is not either.
pub mod Lines
pub mod Loaded
pub mod Interface
pub mod Invariant
mod Tests
use awg2_webui.Base.{
  ℕ, zero, suc, ◌+◌, ◌-◌, Bool, true, false, not, ◌&&◌, ◌||◌, Option, some, none, List, [], ◌∷◌,
  ◌++◌, ltb, leb, ◌==◌, if◌then◌else◌, length, take, set, byte_at, get_or, ℤ, pos, negsuc, exceeds,
  is_neg, pos_part, codes, streqi, split_at, decimal,
}
use awg2_webui.Base64.{base64_decode}
use awg2_webui.Cps.{Template}
use awg2_webui.Cps.Parse.{cps_parse}
use awg2_webui.Transform.{Hrange}
use awg2_webui.Runtime.{nul, parse_uint32_str, parse_int_strict, one_value, ordered_range}
use awg2_webui.Runtime.Peers.{key_of, max_server_peers, not_empty, c_string}
use awg2_webui.Runtime.Env.{FileParams}

abbrev is_blank : ℕ → Bool
is_blank c = c == 32 || c == 9

abbrev is_end : ℕ → Bool
is_end c = is_blank c || (c == 13 || c == 10)

unfoldable pub trim_front : List ℕ → List ℕ
trim_front [] = []
trim_front (c ∷ s) = let rest = trim_front s in if is_blank c then rest else c ∷ s

unfoldable pub trim_end : List ℕ → List ℕ
trim_end [] = []
trim_end (c ∷ s) = let rest = trim_end s in if nul rest && is_end c then [] else c ∷ rest

-- `trim`
unfoldable pub trim : List ℕ → List ℕ
unfolding trim_front trim_end
trim s = trim_end (trim_front s)

-- What is in front of a comment.
unfoldable pub strip_comment : List ℕ → List ℕ
strip_comment [] = []
strip_comment (c ∷ s) =
    let rest = strip_comment s in if c == b'#' || c == b';' then [] else c ∷ rest

-- `parse_hrange`: unlike `parse_hrange_str` it has no test for a second dash of its own.
unfoldable pub range_parts : List ℕ → Option (List ℕ × List ℕ) → Option Hrange
unfolding one_value parse_uint32_str
range_parts s none = one_value (parse_uint32_str s)
range_parts s (some x) =
    if length x.0 == 0 || leb 32 (length x.0)
    then none
    else ordered_range (parse_uint32_str x.0) (parse_uint32_str x.1)

unfoldable pub parse_hrange : List ℕ → Option Hrange
unfolding split_at range_parts
parse_hrange s = range_parts s (split_at b'-' s)

-- `decode_key32`
unfoldable pub decode_key32 : List ℕ → Option (List ℕ)
unfolding base64_decode key_of
decode_key32 val = key_of (base64_decode val 32)

-- `awg_file_config_t`; a field whose `have` flag is not set is `none`.
pub record FileConfig : Type 0 where
  pub params : FileParams
  pub cps : List (Option Template)
  pub client_pub : Option (List ℕ)
  pub listen : Option (List ℕ)
  pub dns : Option (List ℕ)
  pub server_pub : Option (List ℕ)
  pub endpoint : Option (List ℕ)
  pub keepalive : Option ℕ
  pub peer_pubs : List (List ℕ)

pub data Section : Type 0 where
  sec_none sec_interface sec_peer : Section

-- The peer that is being read (`cur_pub`, `cur_ep`, `cur_ka`).
pub record Peer : Type 0 where
  pub key : Option (List ℕ)
  pub endpoint : Option (List ℕ)
  pub keepalive : Option ℕ

abbrev pub no_peer : Peer
no_peer = record { key = none; endpoint = none; keepalive = none }

-- The locals of `config_file_parse`.
pub record Parser : Type 0 where
  pub out : FileConfig
  pub section : Section
  pub first_peer : Bool
  pub peer : Peer

abbrev pub present {ℓ} : {A : Type ℓ} → Option A → Bool
present none = false
present (some a) = true

-- `strncpy` into a buffer of this size.
abbrev pub stored_in : ℕ → List ℕ → List ℕ
stored_in size val = take (size - 1) val

-- The new value where there is one.
abbrev pub newer {ℓ} : {A : Type ℓ} → Option A → Option A → Option A
newer none old = old
newer (some a) old = some a

-- The first 256 keys.
abbrev pub add_peer_pub : Option (List ℕ) → List (List ℕ) → List (List ℕ)
add_peer_pub none keys = keys
add_peer_pub (some key) keys =
    if ltb (length keys) max_server_peers then keys ++ (key ∷ []) else keys

-- `flush_peer`
unfoldable pub flush_peer : Parser → Parser
flush_peer s =
    let counted = record s.out { peer_pubs = add_peer_pub s.peer.key s.out.peer_pubs } in
    let first = record counted {
      server_pub = newer s.peer.key s.out.server_pub;
      endpoint = newer s.peer.endpoint s.out.endpoint;
      keepalive = newer s.peer.keepalive s.out.keepalive;
    } in
    if present s.peer.key || (present s.peer.endpoint || present s.peer.keepalive)
    then record s { out = if s.first_peer then first else counted; first_peer = false }
    else s

unfoldable pub section_named : List ℕ → Section
unfolding streqi
section_named name =
    if streqi name (codes "Interface")
    then sec_interface
    else if streqi name (codes "Peer")
    then sec_peer
    else sec_none

-- `if (len > 2 && line[len - 1] == ']') line[len - 1] = 0`, and the bracket at the front is left out.
unfoldable pub section_name : List ℕ → List ℕ
section_name line =
    let len = length line in
    let closed =
      if ltb 2 len && byte_at line (len - 1) == b']' then take (len - 1) line else line in
    elim closed [ [] ↦ [] | c ∷ s ↦ s ]

-- The peer of a section that ends goes to the result.
abbrev pub flush_at : Section → Parser → Parser
flush_at sec_none s = s
flush_at sec_interface s = s
flush_at sec_peer s = flush_peer s

unfoldable pub section_header : List ℕ → Parser → Parser
unfolding flush_peer section_named section_name trim
section_header line s =
    let flushed = flush_at s.section s in
    record flushed { section = section_named (trim (section_name line)); peer = no_peer }
