-- ===== src/Proxy/Client.antt =====
-- src/proxy_c2s_client.c: from the WireGuard client to the remote AmneziaWG end. A packet is the
-- headroom of `cfg->s4` bytes in front of it in its buffer, with whatever they hold, and its bytes.
use awg2_webui.Base.{
  ℕ, Bool, true, not, ◌&&◌, List, [], ◌∷◌, ◌++◌, ltb, leb, ◌==◌, if◌then◌else◌, length,
}
use awg2_webui.Rand.{fastrand_u64}
use awg2_webui.Obfs.Wrap.{obfs_wrap}
use awg2_webui.Session.{Addr, session_addr_copy, session_addr_equal}
use awg2_webui.Transform.{read32_le, write32_le, wg_transport_data, wg_transport_min}
use awg2_webui.Transform.Outbound.{transform_outbound}
use awg2_webui.Proxy.{
  Setup, ProxyState, pick_h4, remote, own, Thread, send_batch, push, outbound_place, wrapped_of,
  deliver, obfs_max_packet_len, send_junk_and_cps, is_ip, net_addr_port_host,
}

pub record Packet : Type 0 where
  pub room : List ℕ
  pub bytes : List ℕ

-- The header of a data packet: unchanged, or the next of the ring.
unfoldable pub data_header : Setup → ProxyState → List ℕ → List ℕ × ProxyState
unfolding pick_h4
data_header cfg p pkt =
    let (h4, p') = pick_h4 cfg.awg.h4 p in
    if cfg.awg.h4_noop then (pkt, p) else (write32_le pkt h4, p')

-- `n >= WG_TRANSPORT_MIN`, with the header of a data packet.
abbrev pub is_data : List ℕ → Bool
is_data pkt = leb wg_transport_min (length pkt) && read32_le pkt == wg_transport_data

-- A data packet joins the batch as it stands in its buffer, and is not disguised.
unfoldable pub c2s_data : Setup → ProxyState → Thread → Packet → ProxyState × Thread
unfolding data_header
c2s_data cfg p t pkt =
    let (out, p') = data_header cfg p pkt.bytes in (p', push t remote (own (pkt.room ++ out)))

-- Every other packet, once the batch before it was sent.
unfoldable pub c2s_other : (ℕ → ℕ) → Setup → ProxyState → Thread → Packet → ProxyState × Thread
unfolding fastrand_u64 transform_outbound outbound_place wrapped_of obfs_max_packet_len
    send_junk_and_cps deliver
c2s_other clock cfg p t pkt =
    let rand = fastrand_u64 p.rng in
    let seeded = record p { rng = rand } in
    let out = transform_outbound pkt.room pkt.bytes cfg.awg rand in
    let (vec, placed) = outbound_place cfg.awg pkt.room pkt.bytes out.bytes t in
    let (junk, emitted) = send_junk_and_cps clock cfg remote seeded in
    let (wrapped, session) = obfs_wrap p.obfs_c2s out.bytes in
    let too_long = ltb (obfs_max_packet_len cfg) (length out.bytes) in
    let next = if out.send_junk then emitted else seeded in
    (
      if too_long then next else record next { obfs_c2s = session },
      deliver remote out.send_junk p.obfs_c2s.profile vec junk (wrapped_of too_long wrapped) placed,
    )

-- One turn of the loop over the packets received.
unfoldable pub c2s_packet : (ℕ → ℕ) → Setup → ProxyState → Thread → Packet → ProxyState × Thread
unfolding c2s_data c2s_other send_batch
c2s_packet clock cfg p t pkt =
    if length pkt.bytes == 0
    then (p, t)
    else if is_data pkt.bytes
    then c2s_data cfg p t pkt
    else c2s_other clock cfg p (send_batch t) pkt

unfoldable pub c2s_packets :
    (ℕ → ℕ) → Setup → ProxyState → Thread → List Packet → ProxyState × Thread
unfolding c2s_packet
c2s_packets clock cfg p t [] = (p, t)
c2s_packets clock cfg p t (pkt ∷ pkts) =
    let (p', t') = c2s_packet clock cfg p t pkt in c2s_packets clock cfg p' t' pkts

-- The client's address, from the first packet of a batch. With a source port that follows the
-- client's, a new port asks for a reconnect.
unfoldable pub learn_client : Addr → ℕ → ProxyState → ProxyState
unfolding session_addr_copy session_addr_equal net_addr_port_host
learn_client addr addr_len p =
    let (copy, len) = session_addr_copy addr addr_len in
    let known = record p { client_addr = copy; client_addr_len = len; has_client = true } in
    let port = net_addr_port_host addr in
    if not (is_ip addr)
    then p
    else if p.has_client && session_addr_equal p.client_addr addr
    then p
    else if p.auto_src_port && not (p.local_port == port)
    then record known { local_port = port; reconnect_needed = true }
    else known

-- One turn of the thread, with the packets that one call received from `addr`.
unfoldable pub c2s_client :
    (ℕ → ℕ) → Setup → Addr → ℕ → ProxyState → Thread → List Packet → ProxyState × Thread
unfolding c2s_packets learn_client send_batch
c2s_client clock cfg addr addr_len p t pkts =
    let learnt = learn_client addr addr_len (record p { last_active = true }) in
    let (p', t') = c2s_packets clock cfg learnt t pkts in
    if not learnt.remote_open then (learnt, t) else (p', send_batch t')
