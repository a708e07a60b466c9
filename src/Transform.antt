-- ===== src/Transform.antt =====
-- src/transform.h: the H ranges, the sizes of WireGuard messages, and the part of `awg_config_t`
-- that the packet transforms read. The sizes are the `int` fields after `config_validate` has
-- found them not negative (Transform/Validate says which values it lets through).
pub mod Outbound
pub mod Inbound
mod Tests
pub mod Junk
pub mod Validate
pub mod RoundTrip
pub mod RoundTripData
pub mod Computed
pub mod Dispatch
pub mod Ranges
pub mod Layout
use awg2_webui.Base.{
  ℕ, ◌+◌, ◌-◌, ◌*◌, ◌%◌, ◌^◌, Bool, true, false, not, ◌&&◌, ◌||◌, Option, none, some, List, [], ◌∷◌,
  ◌++◌, ltb, leb, ◌==◌, if◌then◌else◌, length, u32, u64, shl, byte_at, le32, drop, replicate,
  bytes_eq, take,
}
use awg2_webui.Blake2s.{overwrite, recompute_mac1, recompute_mac1_response, compute_mac1_key}
use mathlib.Core.List.{map}

abbrev pub wg_handshake_init : ℕ
wg_handshake_init = 1

abbrev pub wg_handshake_response : ℕ
wg_handshake_response = 2

abbrev pub wg_cookie_reply : ℕ
wg_cookie_reply = 3

abbrev pub wg_transport_data : ℕ
wg_transport_data = 4

abbrev pub wg_init_size : ℕ
wg_init_size = 148

abbrev pub wg_resp_size : ℕ
wg_resp_size = 92

abbrev pub wg_cookie_size : ℕ
wg_cookie_size = 64

abbrev pub wg_transport_min : ℕ
wg_transport_min = 32

abbrev pub awg_packet_buf_size : ℕ
awg_packet_buf_size = 1500

abbrev pub awg_packet_headroom : ℕ
awg_packet_headroom = 1500

-- `hrange_t`
pub record Hrange : Type 0 where
  pub min : ℕ
  pub max : ℕ

-- A random member of the range; the span is computed in 64 bits, where `-` may wrap.
unfoldable pub hrange_pick : Hrange → ℕ → ℕ
hrange_pick r rand_val =
    if r.min == r.max
    then r.min
    else let span = u64 (r.max + 2 ^ 64 - r.min + 1) in u32 (r.min + u32 (rand_val % span))

unfoldable pub hrange_contains : Hrange → ℕ → Bool
hrange_contains r v = leb r.min v && leb v r.max

pub data Mode : Type 0 where
  client gateway server : Mode

-- `awg_config_t`. A key that is a null pointer is `none`.
pub record Config : Type 0 where
  pub jc : ℕ
  pub jmin : ℕ
  pub jmax : ℕ
  pub s1 : ℕ
  pub s2 : ℕ
  pub s3 : ℕ
  pub s4 : ℕ
  pub h1 : Hrange
  pub h2 : Hrange
  pub h3 : Hrange
  pub h4 : Hrange
  pub server_pub : List ℕ
  pub client_pub : List ℕ
  pub server_peer_pubs : List (List ℕ)
  pub mac1key_server : List ℕ
  pub mac1key_client : List ℕ
  pub server_peer_mac1keys : List (List ℕ)
  pub h4_fixed : ℕ
  pub h4_noop : Bool
  pub init_total : ℕ
  pub resp_total : ℕ
  pub cookie_total : ℕ
  pub has_server_pub : Bool
  pub has_client_pub : Bool
  pub mac1key_out : Option (List ℕ)
  pub mac1key_in : Option (List ℕ)
  pub transport_size_ambiguous : Bool
  pub mode : Mode

-- The keys for outbound and inbound packets: a client's outbound packets are for the server.
abbrev pub key_out_for : Mode → Option (List ℕ) → Option (List ℕ) → Option (List ℕ)
key_out_for client server_key client_key = server_key
key_out_for _ server_key client_key = client_key

abbrev pub key_in_for : Mode → Option (List ℕ) → Option (List ℕ) → Option (List ℕ)
key_in_for client server_key client_key = client_key
key_in_for _ server_key client_key = server_key

unfoldable pub config_compute : Config → Config
config_compute c =
    let has_server = not (bytes_eq c.server_pub (replicate 32 0)) in
    let has_client = not (bytes_eq c.client_pub (replicate 32 0)) in
    let key_server = compute_mac1_key c.server_pub in
    let key_client = compute_mac1_key c.client_pub in
    let server_key = if has_server then some key_server else none in
    let client_key = if has_client then some key_client else none in
    let tmin = c.s4 + wg_transport_min in
    record c {
      has_server_pub = has_server;
      has_client_pub = has_client;
      mac1key_server = key_server;
      mac1key_client = key_client;
      server_peer_mac1keys = map compute_mac1_key c.server_peer_pubs;
      h4_fixed = c.h4.min;
      h4_noop = c.h4.min == wg_transport_data && (c.h4.max == wg_transport_data && c.s4 == 0);
      init_total = c.s1 + wg_init_size;
      resp_total = c.s2 + wg_resp_size;
      cookie_total = c.s3 + wg_cookie_size;
      transport_size_ambiguous =
          leb tmin (c.s1 + wg_init_size)
          || (leb tmin (c.s2 + wg_resp_size) || leb tmin (c.s3 + wg_cookie_size));
      mac1key_out = key_out_for c.mode server_key client_key;
      mac1key_in = key_in_for c.mode server_key client_key;
    }

abbrev pub read32_le : List ℕ → ℕ
read32_le p = byte_at p 0 + shl (byte_at p 1) 8 + shl (byte_at p 2) 16 + shl (byte_at p 3) 24

abbrev pub write32_le : List ℕ → ℕ → List ℕ
write32_le p v = overwrite 0 (le32 v) p

abbrev pub clear_mac2_init : List ℕ → List ℕ
clear_mac2_init pkt = overwrite 132 (replicate 16 0) pkt

abbrev pub clear_mac2_response : List ℕ → List ℕ
clear_mac2_response pkt = overwrite 76 (replicate 16 0) pkt

-- `if (key) { recompute_mac1...; clear_mac2...; }`
abbrev pub seal_init : Option (List ℕ) → List ℕ → List ℕ
seal_init none pkt = pkt
seal_init (some key) pkt = clear_mac2_init (recompute_mac1 pkt key)

abbrev pub seal_response : Option (List ℕ) → List ℕ → List ℕ
seal_response none pkt = pkt
seal_response (some key) pkt = clear_mac2_response (recompute_mac1_response pkt key)
