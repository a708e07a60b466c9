-- ===== src/Transform/Outbound.antt =====
-- `transform_outbound` of src/transform.c: from WireGuard to AmneziaWG. `headroom` is `buf[0..dataoff)`
-- and `pkt` the `n` bytes behind it. A padded handshake is laid out in the headroom or, where that
-- is too small, in `hs_buf`: the bytes are the same.
use awg2_webui.Base.{
  ℕ, ◌-◌, Bool, false, ◌&&◌, Option, none, some, List, ◌++◌, bit_xor, ltb, leb, ◌==◌, if◌then◌else◌,
  length, drop,
}
use awg2_webui.Rand.{fastrand_init, fastrand_fill}
use awg2_webui.Transform.{
  wg_handshake_init, wg_handshake_response, wg_cookie_reply, wg_transport_data, wg_init_size,
  wg_resp_size, wg_cookie_size, wg_transport_min, hrange_pick, Config, read32_le, write32_le,
  seal_init, seal_response,
}

-- The bytes from the returned pointer on, and `*sendJunk`.
pub record Output : Type 0 where
  pub bytes : List ℕ
  pub send_junk : Bool

-- `size` random bytes from a generator of its own, then the packet.
unfoldable pub padded : ℕ → ℕ → List ℕ → List ℕ
padded size seed pkt =
    if ltb 0 size then (fastrand_fill (fastrand_init seed) size).0 ++ pkt else pkt

-- `key ? key : other`
abbrev pub or_key : Option (List ℕ) → Option (List ℕ) → Option (List ℕ)
or_key none other = other
or_key (some key) other = some key

unfoldable pub transform_outbound_with_mac1 :
    List ℕ → List ℕ → Config → Option (List ℕ) → ℕ → Output
unfolding padded
transform_outbound_with_mac1 headroom pkt c mac1key_out rand_val =
    let out_key = or_key mac1key_out c.mac1key_out in
    let n = length pkt in
    let msg_type = read32_le pkt in
    if ltb n 4
    then record { bytes = pkt; send_junk = false }
    else if msg_type == wg_handshake_init && n == wg_init_size
    then record {
      bytes = padded c.s1 rand_val (seal_init out_key (write32_le pkt (hrange_pick c.h1 rand_val)));
      send_junk = ltb 0 c.jc;
    }
    else if msg_type == wg_handshake_response && n == wg_resp_size
    then record {
      bytes =
          padded c.s2 (bit_xor rand_val 0x12345)
            (seal_response out_key (write32_le pkt (hrange_pick c.h2 rand_val)));
      send_junk = false;
    }
    else if msg_type == wg_cookie_reply && n == wg_cookie_size
    then record {
      bytes = padded c.s3 (bit_xor rand_val 0x67890) (write32_le pkt (hrange_pick c.h3 rand_val));
      send_junk = false;
    }
    else if msg_type == wg_transport_data && leb wg_transport_min n
    then (if c.h4_noop
        then record { bytes = pkt; send_junk = false }
        else let pkt' =
            write32_le pkt
              (if c.h4.min == c.h4.max then c.h4_fixed else hrange_pick c.h4 rand_val) in
          record {
            bytes =
                if ltb 0 c.s4 && leb c.s4 (length headroom)
                then drop (length headroom - c.s4) headroom ++ pkt'
                else pkt';
            send_junk = false;
          })
    else record { bytes = pkt; send_junk = false }

unfoldable pub transform_outbound : List ℕ → List ℕ → Config → ℕ → Output
unfolding transform_outbound_with_mac1
transform_outbound headroom pkt c rand_val =
    transform_outbound_with_mac1 headroom pkt c none rand_val
