-- ===== src/Obfs.antt =====
-- src/obfs.h and the sessions of src/obfs.c: the profiles, the state of one direction of a flow,
-- and the marker that tells an obfuscated flow from a plain one.
-- The guards for null pointers have no counterpart: a packet is a list, and is always there.
pub mod Wrap
pub mod Unwrap
pub mod Frame
pub mod Sent
mod Tests
pub mod Names
pub mod Flow
pub mod Overhead
pub mod Send
pub mod RoundTrip
use awg2_webui.Base.{
  ℕ, ◌+◌, ◌-◌, ◌^◌, Bool, true, false, Option, none, some, List, [], ◌∷◌, ◌++◌, bit_xor, ltb,
  if◌then◌else◌, length, take, drop, bytes_eq, u32, u64, shr, ◌&&◌, leb,
}

pub data Profile : Type 0 where
  off stun_ice dtls_record rtp_media source_query raknet quic_short game_enet game_kcp dns_like :
      Profile

-- `obfs_session_t`. The flag `marker_seen` is only ever 0 or 1.
pub record Session : Type 0 where
  pub profile : Profile
  pub tx_seq : ℕ
  pub rx_seq : ℕ
  pub ssrc : ℕ
  pub ts : ℕ
  pub marker_seen : Bool
  pub marker_tx_left : ℕ
  pub marker_rx_window : ℕ

abbrev pub is_off : Profile → Bool
is_off off = true
is_off _ = false

-- `obfs_session_init`
unfoldable pub session_init : Profile → ℕ → Session
session_init p seed = record {
  profile = p;
  tx_seq = seed;
  rx_seq = bit_xor seed 0x9e3779b97f4a7c15;
  ssrc = u32 (bit_xor seed (shr seed 32));
  ts = u32 (shr seed 16);
  marker_seen = is_off p;
  marker_tx_left = if is_off p then 0 else 3;
  marker_rx_window = if is_off p then 0 else 16;
}

abbrev pub obfs_max_packet : ℕ
obfs_max_packet = 4096

abbrev pub obfs_marker : List ℕ
obfs_marker = 0xa7 ∷ 0x51 ∷ 0xc3 ∷ 0x2e ∷ []

unfoldable pub marker_extra_len : Session → ℕ
marker_extra_len s = if ltb 0 s.marker_tx_left then 4 else 0

-- The bytes that `marker_write_if_needed` stores, and the session after it.
unfoldable pub marker_write_if_needed : Session → List ℕ × Session
marker_write_if_needed s =
    if ltb 0 s.marker_tx_left
    then (obfs_marker, record s { marker_tx_left = s.marker_tx_left - 1 })
    else ([], s)

-- The payload that is left of `input[0..len)`, and the session; `none` is the null pointer.
unfoldable pub marker_unwrap_if_needed : Session → List ℕ → Option (List ℕ) × Session
marker_unwrap_if_needed s input =
    if s.marker_seen
    then (some input, s)
    else if leb 4 (length input) && bytes_eq (take 4 input) obfs_marker
    then (some (drop 4 input), record s { marker_seen = true })
    else if ltb 0 s.marker_rx_window
    then (none, record s { marker_rx_window = s.marker_rx_window - 1 })
    else (none, s)
