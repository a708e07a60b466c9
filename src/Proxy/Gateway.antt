-- ===== src/Proxy/Gateway.antt =====
-- src/proxy_s2c_gateway.c: from the WireGuard server to the AmneziaWG clients, in the modes `gateway`
-- (one client, the last one that sent) and `server` (the client of the packet's session).
use awg2_webui.Base.{
  ℕ, true, false, ◌&&◌, Option, some, none, List, [], ◌∷◌, ◌++◌, ltb, leb, ◌==◌, if◌then◌else◌,
  length, drop, get_elem?, ℤ, pos, negsuc,
}
use awg2_webui.Rand.{fastrand_u64}
use awg2_webui.Obfs.{Profile, Session, session_init}
use awg2_webui.Obfs.Wrap.{obfs_wrap}
use awg2_webui.Session.{
  Addr, Table, update, Found, found, missing, spinning, session_lookup, session_get_peer_slot,
  session_set_peer_slot, session_set_peer_slot_if_index,
}
use awg2_webui.Session.Scan.{session_find_sole_entry_with_addr}
use awg2_webui.Transform.{
  Config, Mode, client, gateway, server, read32_le, wg_handshake_init, wg_handshake_response,
  wg_cookie_reply, wg_transport_data, wg_init_size, wg_resp_size, wg_cookie_size, wg_transport_min,
}
use awg2_webui.Transform.Inbound.{config_server_resolve_peer_for_response}
use awg2_webui.Transform.Outbound.{transform_outbound_with_mac1}
use awg2_webui.Proxy.{
  Setup, ProxyState, to, own, Thread, send_batch, outbound_place, wrapped_of, deliver,
  obfs_max_packet_len, send_junk_and_cps,
}
use awg2_webui.Proxy.Client.{Packet, data_header, is_data}

-- Where a packet goes: the address, in `server` mode the entry, and the index it was found by.
pub record Route : Type 0 where
  pub slot : Option ℕ
  pub addr : Addr
  pub addr_len : ℕ
  pub index : Option ℕ

-- The result of a lookup. No writer is between its two increments here, since each call is one step.
abbrev pub route_found : Option ℕ → Found → Option Route
route_found index (found s addr len) =
    some (record { slot = some s; addr = addr; addr_len = len; index = index })
route_found index missing = none
route_found index spinning = none

abbrev pub route_index : Table → ℕ → Option Route
route_index sessions index = route_found (some index) (session_lookup sessions index)

unfoldable pub route_server : Table → List ℕ → Option Route
unfolding session_lookup session_find_sole_entry_with_addr
route_server sessions pkt =
    let n = length pkt in
    let type = read32_le pkt in
    if ltb n 4
    then none
    else if type == wg_transport_data && leb wg_transport_min n
    then route_index sessions (read32_le (drop 4 pkt))
    else if type == wg_handshake_response && n == wg_resp_size
    then route_index sessions (read32_le (drop 8 pkt))
    else if type == wg_cookie_reply && n == wg_cookie_size
    then route_index sessions (read32_le (drop 4 pkt))
    else if type == wg_handshake_init && n == wg_init_size
    then route_found none (session_find_sole_entry_with_addr sessions)
    else none

abbrev pub route_gateway : ProxyState → Option Route
route_gateway p =
    if p.has_client
    then some
        (record { slot = none; addr = p.client_addr; addr_len = p.client_addr_len; index = none })
    else none

unfoldable pub route : Mode → ProxyState → List ℕ → Option Route
unfolding route_server
route server p pkt = route_server p.sessions pkt
route gateway p pkt = route_gateway p
route client p pkt = route_gateway p

-- The first use of an entry's sessions sets them up.
unfoldable pub ready_entry : Profile → ℕ → ProxyState → ProxyState
unfolding fastrand_u64 session_init
ready_entry profile s p =
    let e = p.sessions s in
    let r1 = fastrand_u64 p.rng in
    let r2 = fastrand_u64 r1 in
    if e.obfs_ready then p else record p {
      rng = r2;
      sessions = update p.sessions s (record e {
        obfs_c2s = session_init profile r1;
        obfs_s2c = session_init profile r2;
        obfs_ready = true;
      });
    }

-- `pick_obfs_tx`: the session that the pointer is to, and what a change of it is in the proxy.
unfoldable pub pick_obfs_tx : Profile → Option ℕ → ProxyState → Session × ProxyState
unfolding ready_entry
pick_obfs_tx profile none p = (p.obfs_s2c, p)
pick_obfs_tx profile (some s) p = let p' = ready_entry profile s p in ((p'.sessions s).obfs_s2c, p')

unfoldable pub set_obfs_tx : Option ℕ → Session → ProxyState → ProxyState
set_obfs_tx none session p = record p { obfs_s2c = session }
set_obfs_tx (some s) session p = record p {
  sessions = update p.sessions s (record (p.sessions s) { obfs_s2c = session });
}

-- `peer_slot >= 0 && peer_slot < cfg->server_peer_count`, and the key of the peer then.
abbrev pub peer_key : Config → ℤ → Option (List ℕ)
peer_key c (pos i) = get_elem? c.server_peer_mac1keys i
peer_key c (negsuc i) = none

-- The entry remembers the peer that a response was resolved to.
abbrev pub remember_peer : Route → ℤ → Table → Table
remember_peer r peer sessions = elim r.index [
  | none ↦ session_set_peer_slot sessions r.slot peer
  | some index ↦ session_set_peer_slot_if_index sessions r.slot index peer
]

abbrev pub resolved_key : Config → Route → Option ℕ → ProxyState → Option (List ℕ) × ProxyState
resolved_key c r none p = (none, p)
resolved_key c r (some i) p =
    (get_elem? c.server_peer_mac1keys i, record p { sessions = remember_peer r (pos i) p.sessions })

abbrev pub key_or_resolved :
    Option (List ℕ) → Config → Route → List ℕ → ProxyState → Option (List ℕ) × ProxyState
key_or_resolved (some key) c r pkt p = (some key, p)
key_or_resolved none c r pkt p =
    if read32_le pkt == wg_handshake_response && length pkt == wg_resp_size
    then resolved_key c r (config_server_resolve_peer_for_response c pkt) p
    else (none, p)

-- The MAC1 key for the peer of the packet's session; a response finds it by trying them all.
unfoldable pub gateway_key : Config → Route → List ℕ → ProxyState → Option (List ℕ) × ProxyState
unfolding session_get_peer_slot session_set_peer_slot session_set_peer_slot_if_index
    config_server_resolve_peer_for_response
gateway_key c r pkt p = elim c.mode [
  | server ↦ key_or_resolved (peer_key c (session_get_peer_slot p.sessions r.slot)) c r pkt p
  | gateway ↦ (none, p)
  | client ↦ (none, p)
]

-- A data packet: the header, the disguise, and into the batch.
unfoldable pub s2c_data : Setup → Route → ProxyState → Thread → Packet → ProxyState × Thread
unfolding data_header pick_obfs_tx set_obfs_tx obfs_max_packet_len deliver
s2c_data cfg r p t pkt =
    let (plain, counted) = data_header cfg p pkt.bytes in
    let out = pkt.room ++ plain in
    let (session, ready) = pick_obfs_tx cfg.obfs_profile r.slot counted in
    let (wrapped, session') = obfs_wrap session out in
    if ltb (obfs_max_packet_len cfg) (length out) then (counted, t) else (
      set_obfs_tx r.slot session' ready,
      deliver (to r.addr r.addr_len) false session.profile (own out) [] wrapped t,
    )

-- Every other packet.
unfoldable pub s2c_other :
    (ℕ → ℕ) → Setup → Route → ProxyState → Thread → Packet → ProxyState × Thread
unfolding gateway_key fastrand_u64 transform_outbound_with_mac1 outbound_place send_junk_and_cps
    pick_obfs_tx set_obfs_tx wrapped_of obfs_max_packet_len deliver
s2c_other clock cfg r p t pkt =
    let dest = to r.addr r.addr_len in
    let (key, keyed) = gateway_key cfg.awg r pkt.bytes p in
    let rand = fastrand_u64 keyed.rng in
    let seeded = record keyed { rng = rand } in
    let out = transform_outbound_with_mac1 pkt.room pkt.bytes cfg.awg key rand in
    let (vec, placed) = outbound_place cfg.awg pkt.room pkt.bytes out.bytes t in
    let (junk, emitted) = send_junk_and_cps clock cfg dest seeded in
    let (session, ready) =
      pick_obfs_tx cfg.obfs_profile r.slot (if out.send_junk then emitted else seeded) in
    let (wrapped, session') = obfs_wrap session out.bytes in
    let too_long = ltb (obfs_max_packet_len cfg) (length out.bytes) in
    (
      if too_long then ready else set_obfs_tx r.slot session' ready,
      deliver dest out.send_junk session.profile vec junk (wrapped_of too_long wrapped) placed,
    )

-- A packet without a route is dropped.
unfoldable pub s2c_routed :
    (ℕ → ℕ) → Setup → Option Route → ProxyState → Thread → Packet → ProxyState × Thread
unfolding s2c_data s2c_other
s2c_routed clock cfg none p t pkt = (p, t)
s2c_routed clock cfg (some r) p t pkt =
    if is_data pkt.bytes then s2c_data cfg r p t pkt else s2c_other clock cfg r p t pkt

-- `proxy_s2c_process_gateway`
unfoldable pub proxy_s2c_process_gateway :
    (ℕ → ℕ) → Setup → ProxyState → Thread → Packet → ProxyState × Thread
unfolding route s2c_routed
proxy_s2c_process_gateway clock cfg p t pkt =
    s2c_routed clock cfg (route cfg.awg.mode p pkt.bytes) p t pkt

-- The loop of `s2c_thread` over the packets that one call received, with the send behind it.
unfoldable pub s2c_gateway_packets :
    (ℕ → ℕ) → Setup → ProxyState → Thread → List Packet → ProxyState × Thread
unfolding proxy_s2c_process_gateway
s2c_gateway_packets clock cfg p t [] = (p, t)
s2c_gateway_packets clock cfg p t (pkt ∷ pkts) =
    let (p', t') = proxy_s2c_process_gateway clock cfg p t pkt in
    let skipped = s2c_gateway_packets clock cfg p t pkts in
    let (p'', t'') = s2c_gateway_packets clock cfg p' t' pkts in
    if length pkt.bytes == 0 then skipped else (p'', t'')

unfoldable pub s2c_gateway :
    (ℕ → ℕ) → Setup → ProxyState → Thread → List Packet → ProxyState × Thread
unfolding s2c_gateway_packets send_batch
s2c_gateway clock cfg p t pkts =
    let (p', t') = s2c_gateway_packets clock cfg p t pkts in (p', send_batch t')
