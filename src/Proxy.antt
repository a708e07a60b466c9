-- ===== src/Proxy.antt =====
-- The state of a proxy (`proxy_t` of src/proxy.h) as far as packets read and write it, the buffers of
-- a thread, the ring of H4 values, and the junk in front of a handshake (src/proxy.c, src/proxy_emit.c).
-- What is sent is a list of datagrams; that the socket takes them is not modelled, nor are the flags
-- that only decide what is logged.
pub mod Client
pub mod ClientBatch
pub mod FromRemote
pub mod Gateway
pub mod Overwritten
pub mod FromClients
pub mod Ring
pub mod EndToEnd
pub mod Gro
pub mod Gso
mod Pieces
mod Tests
use mathlib.Core.List.{map}
use awg2_webui.Base.{
  ℕ, zero, suc, ◌+◌, ◌-◌, ◌*◌, Bool, true, false, not, ◌&&◌, ◌||◌, Option, some, none, List, [],
  ◌∷◌, ◌++◌, ltb, leb, ◌==◌, if◌then◌else◌, length, take, drop, replicate, get_or, low_bits,
}
use awg2_webui.Rand.{fastrand_u64, fastrand_fill}
use awg2_webui.Obfs.{Profile, off, is_off, Session}
use awg2_webui.Obfs.Wrap.{obfs_wrap}
use awg2_webui.Obfs.Overhead.{obfs_profile_overhead_max}
use awg2_webui.Cps.{Template, cps_generate_all}
use awg2_webui.Session.{Addr, inet, inet6, unknown, Table}
use awg2_webui.Transform.{
  Hrange, hrange_pick, Config, read32_le, wg_handshake_init, wg_handshake_response, wg_cookie_reply,
  wg_init_size, wg_resp_size, wg_cookie_size, awg_packet_buf_size, awg_packet_headroom,
}
use awg2_webui.Transform.Junk.{generate_junk}

-- The fields of `awg_config_t` that the data paths read.
pub record Setup : Type 0 where
  pub awg : Config
  pub cps : List (Option Template)
  pub obfs_profile : Profile

-- `remote_open` is `remote_fd >= 0`.
pub record ProxyState : Type 0 where
  pub remote_open : Bool
  pub has_client : Bool
  pub last_active : Bool
  pub reconnect_needed : Bool
  pub client_addr : Addr
  pub client_addr_len : ℕ
  pub auto_src_port : Bool
  pub local_port : ℕ
  pub rng : ℕ
  pub h4_ring : List ℕ
  pub h4_idx : ℕ
  pub cps_counter : ℕ
  pub sessions : Table
  pub obfs_c2s : Session
  pub obfs_s2c : Session
  pub obfs_fail_c2s : ℕ
  pub obfs_fail_s2c : ℕ

abbrev pub h4_ring_size : ℕ
h4_ring_size = 4096

-- The loop of `fill_h4_ring`.
unfoldable pub ring_values : Hrange → ℕ → ℕ → List ℕ × ℕ
unfolding fastrand_u64 hrange_pick
ring_values r zero rng = ([], rng)
ring_values r (suc left) rng =
    let v = fastrand_u64 rng in
    let (rest, last) = ring_values r left v in (hrange_pick r v ∷ rest, last)

unfoldable pub fill_h4_ring : Hrange → ProxyState → ProxyState
unfolding ring_values
fill_h4_ring r p =
    let (ring, rng) = ring_values r h4_ring_size p.rng in
    if r.min == r.max
    then record p { h4_ring = replicate h4_ring_size r.min }
    else record p { h4_ring = ring; rng = rng }

unfoldable pub pick_h4 : Hrange → ProxyState → ℕ × ProxyState
unfolding fill_h4_ring
pick_h4 r p =
    let v = get_or p.h4_ring p.h4_idx 0 in
    let next = record p { h4_idx = low_bits (p.h4_idx + 1) 12 } in
    (v, if next.h4_idx == 0 then fill_h4_ring r next else next)

-- Where a datagram goes: over the connected socket, or to an address.
pub data Dest : Type 0 where
  remote : Dest
  to : (addr : Addr) (addr_len : ℕ) → Dest

pub record Datagram : Type 0 where
  pub dest : Dest
  pub bytes : List ℕ

-- An `iovec` of a batch: bytes in a buffer of the packet's own, or the front of one of the thread's
-- static buffers (`obfs_buf` of src/obfs.c, `hs_buf` of src/transform.c), read when the batch is sent.
pub data Iovec : Type 0 where
  own : (bytes : List ℕ) → Iovec
  in_obfs_buf in_hs_buf : (len : ℕ) → Iovec

pub record Pending : Type 0 where
  pub dest : Dest
  pub vec : Iovec

-- A thread: its static buffers, the batch (`nsend` is its length), and what it has sent.
pub record Thread : Type 0 where
  pub obfs_buf : List ℕ
  pub hs_buf : List ℕ
  pub batch : List Pending
  pub sent : List Datagram

abbrev pub iov_bytes : Thread → Iovec → List ℕ
iov_bytes t (own bytes) = bytes
iov_bytes t (in_obfs_buf len) = take len t.obfs_buf
iov_bytes t (in_hs_buf len) = take len t.hs_buf

abbrev pub iov_datagram : Thread → Pending → Datagram
iov_datagram t e = record { dest = e.dest; bytes = iov_bytes t e.vec }

-- `proxy_io_send_batch_gso` on the batch, and `nsend = 0`.
unfoldable pub send_batch : Thread → Thread
send_batch t = record t { batch = []; sent = t.sent ++ map (iov_datagram t) t.batch }

abbrev pub push : Thread → Dest → Iovec → Thread
push t dest vec = record t { batch = t.batch ++ (record { dest = dest; vec = vec } ∷ []) }

abbrev pub emit_now : Thread → List Datagram → Thread
emit_now t ds = record t { sent = t.sent ++ ds }

-- A buffer with bytes stored at its front.
abbrev pub stored : List ℕ → List ℕ → List ℕ
stored bytes buf = bytes ++ drop (length bytes) buf

-- The handshakes that `transform_outbound` lays out in `hs_buf`, for want of headroom.
abbrev pub in_static : Config → ℕ → List ℕ → Bool
in_static c dataoff pkt =
    let n = length pkt in
    let type = read32_le pkt in
    (type == wg_handshake_init && (n == wg_init_size && ltb dataoff c.s1))
    || ((type == wg_handshake_response && (n == wg_resp_size && ltb dataoff c.s2))
        || (type == wg_cookie_reply && (n == wg_cookie_size && ltb dataoff c.s3)))

-- Where the result of `transform_outbound` lies.
unfoldable pub outbound_place : Config → List ℕ → List ℕ → List ℕ → Thread → Iovec × Thread
outbound_place c headroom pkt bytes t =
    if in_static c (length headroom) pkt
    then (in_hs_buf (length bytes), record t { hs_buf = stored bytes t.hs_buf })
    else (own bytes, t)

-- Where the result of `obfs_wrap` lies: `off` returns its argument.
unfoldable pub wrapped_place : Profile → Iovec → List ℕ → Thread → Iovec × Thread
wrapped_place profile vec bytes t =
    if is_off profile
    then (vec, t)
    else (in_obfs_buf (length bytes), record t { obfs_buf = stored bytes t.obfs_buf })

-- A wrapped packet joins the batch.
unfoldable pub push_wrapped : Dest → Profile → Iovec → List ℕ → Thread → Thread
unfolding wrapped_place
push_wrapped dest profile vec w t =
    let (wvec, kept) = wrapped_place profile vec w t in push kept dest wvec

-- What is left of a packet that is too long for the disguise, or that does not fit it: nothing.
unfoldable pub wrapped_of : Bool → Option (List ℕ) → Option (List ℕ)
wrapped_of too_long wrapped = if too_long then none else wrapped

-- The end of the turn: with `sendJunk` the packet is sent at once, behind the junk; else it joins the batch.
unfoldable pub deliver :
    Dest → Bool → Profile → Iovec → List Datagram → Option (List ℕ) → Thread → Thread
unfolding push_wrapped wrapped_place
deliver dest true profile vec junk none t = emit_now t junk
deliver dest true profile vec junk (some w) t =
    emit_now (wrapped_place profile vec w t).1 (junk ++ (record { dest = dest; bytes = w } ∷ []))
deliver dest false profile vec junk none t = t
deliver dest false profile vec junk (some w) t = push_wrapped dest profile vec w t

-- `obfs_max_packet_len`
unfoldable pub obfs_max_packet_len : Setup → ℕ
unfolding obfs_profile_overhead_max
obfs_max_packet_len cfg =
    awg_packet_buf_size + awg_packet_headroom - obfs_profile_overhead_max cfg.obfs_profile

-- The junk packets of the sizes, one behind the other in the buffer.
unfoldable pub junk_packets : List ℕ → List ℕ → List (List ℕ)
junk_packets buf [] = []
junk_packets buf (size ∷ sizes) = take size buf ∷ junk_packets (drop size buf) sizes

abbrev pub datagrams_to : Dest → List (List ℕ) → List Datagram
datagrams_to dest packets = map (λ b. record { dest = dest; bytes = b }) packets

-- `proxy_emit_send_junk_and_cps` and `proxy_emit_send_junk_and_cps_to`. The product of the sizes of the
-- junk fits `size_t`, as `proxy_init` has checked.
unfoldable pub send_junk_and_cps : (ℕ → ℕ) → Setup → Dest → ProxyState → List Datagram × ProxyState
unfolding cps_generate_all fastrand_fill generate_junk junk_packets
send_junk_and_cps clock cfg dest p =
    let (cps, count) = cps_generate_all clock cfg.cps p.cps_counter in
    let counted = record p { cps_counter = count } in
    let (junk_buf, rng) = fastrand_fill p.rng (cfg.awg.jc * cfg.awg.jmax) in
    let junk = junk_packets junk_buf (generate_junk cfg.awg junk_buf) in
    if ltb 0 cfg.awg.jc && ltb 0 cfg.awg.jmax
    then (datagrams_to dest cps ++ datagrams_to dest junk, record counted { rng = rng })
    else (datagrams_to dest cps, counted)

-- `ss_family == AF_INET || ss_family == AF_INET6`
abbrev pub is_ip : Addr → Bool
is_ip (inet port addr) = true
is_ip (inet6 port scope_id addr) = true
is_ip (unknown family) = false

-- `net_addr_port_host` of src/net_addr.c; the ports of an `Addr` are in host order.
unfoldable pub net_addr_port_host : Addr → ℕ
net_addr_port_host (inet port addr) = port
net_addr_port_host (inet6 port scope_id addr) = port
net_addr_port_host (unknown family) = 0
