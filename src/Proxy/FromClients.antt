-- ===== src/Proxy/FromClients.antt =====
-- src/proxy_c2s_gateway.c: from the AmneziaWG clients to the WireGuard server. A batch is the packets
-- that one call received, each with the address it came from.
use awg2_webui.Base.{
  ℕ, ◌+◌, Bool, true, false, not, ◌&&◌, ◌||◌, Option, some, none, List, [], ◌∷◌, ◌==◌,
  if◌then◌else◌, length, drop, u32,
}
use awg2_webui.Obfs.{Profile, Session}
use awg2_webui.Obfs.Unwrap.{obfs_unwrap}
use awg2_webui.Session.{
  Addr, update, session_addr_copy, session_addr_equal, session_put, session_get_entry,
}
use awg2_webui.Session.Scan.{session_find_by_addr}
use awg2_webui.Transform.{
  Mode, client, gateway, server, read32_le, wg_handshake_init, wg_handshake_response, wg_init_size,
  wg_resp_size,
}
use awg2_webui.Transform.Inbound.{transform_inbound}
use awg2_webui.Proxy.{Setup, ProxyState, remote, own, Thread, send_batch, push, is_ip}
use awg2_webui.Proxy.FromRemote.{inbound_data}
use awg2_webui.Proxy.Gateway.{ready_entry}

pub record Received : Type 0 where
  pub addr : Addr
  pub addr_len : ℕ
  pub bytes : List ℕ

abbrev pub is_server : Mode → Bool
is_server server = true
is_server gateway = false
is_server client = false

-- The sessions of an entry that was found are set up on their first use.
abbrev pub ready_found : Profile → Option ℕ → ProxyState → ProxyState
ready_found profile none p = p
ready_found profile (some s) p = ready_entry profile s p

-- The entry whose session unwraps a packet: in `server` mode the first one with its address.
unfoldable pub pick_obfs_rx : Setup → Addr → ProxyState → Option ℕ
unfolding session_find_by_addr
pick_obfs_rx cfg addr p =
    if is_server cfg.awg.mode then session_find_by_addr p.sessions addr else none

abbrev pub obfs_rx : Option ℕ → ProxyState → Session
obfs_rx none p = p.obfs_c2s
obfs_rx (some s) p = (p.sessions s).obfs_c2s

abbrev pub set_obfs_rx : Option ℕ → Session → ProxyState → ProxyState
set_obfs_rx none session p = record p { obfs_c2s = session }
set_obfs_rx (some s) session p = record p {
  sessions = update p.sessions s (record (p.sessions s) { obfs_c2s = session });
}

-- In `server` mode a handshake that passed is a session of its sender's, at the address it came from.
unfoldable pub record_session : Setup → Received → List ℕ → ProxyState → ProxyState
unfolding session_put session_get_entry
record_session cfg r out p =
    let index = read32_le (drop 4 out) in
    let put = record p { sessions = session_put p.sessions index r.addr r.addr_len } in
    let type = read32_le out in
    if is_server cfg.awg.mode
      && (is_ip r.addr
          && ((type == wg_handshake_init && length out == wg_init_size)
              || (type == wg_handshake_response && length out == wg_resp_size)))
    then ready_found cfg.obfs_profile (session_get_entry put.sessions index) put
    else p

-- What was unwrapped, through the transform and into the batch; what is junk is dropped.
unfoldable pub forward :
    Setup → Received → ProxyState → Thread → Option (List ℕ) → ProxyState × Thread
unfolding record_session
forward cfg r p t none = (p, t)
forward cfg r p t (some out) = (record_session cfg r out p, push t remote (own out))

-- A packet that the disguise refuses is counted.
unfoldable pub unwrapped :
    Setup → Received → ProxyState → Thread → Option (List ℕ) → ProxyState × Thread
unfolding transform_inbound forward
unwrapped cfg r p t none = (record p { obfs_fail_c2s = u32 (p.obfs_fail_c2s + 1) }, t)
unwrapped cfg r p t (some body) = forward cfg r p t (transform_inbound cfg.awg body)

-- A packet that the fast path leaves, once the batch before it was sent.
unfoldable pub gateway_other :
    Setup → Option ℕ → ProxyState → Thread → Received → ProxyState × Thread
unfolding obfs_unwrap unwrapped
gateway_other cfg s p t r =
    let (body, session) = obfs_unwrap (obfs_rx s p) r.bytes in
    unwrapped cfg r (set_obfs_rx s session p) t body

abbrev pub gateway_fast :
    Option (List ℕ) → Setup → Option ℕ → ProxyState → Thread → Received → ProxyState × Thread
gateway_fast (some out) cfg s p t r = (p, push t remote (own out))
gateway_fast none cfg s p t r = gateway_other cfg s p (send_batch t) r

-- One turn of the loop over the packets received. The fast path takes data packets as they came,
-- before any unwrapping: a client does not disguise them.
unfoldable pub gateway_packet : Setup → ProxyState → Thread → Received → ProxyState × Thread
unfolding pick_obfs_rx inbound_data gateway_other send_batch ready_entry
gateway_packet cfg p t r =
    let s = pick_obfs_rx cfg r.addr p in
    let ready = ready_found cfg.obfs_profile s p in
    if length r.bytes == 0
    then (p, t)
    else gateway_fast (inbound_data cfg.awg r.bytes) cfg s ready t r

unfoldable pub gateway_packets : Setup → ProxyState → Thread → List Received → ProxyState × Thread
unfolding gateway_packet
gateway_packets cfg p t [] = (p, t)
gateway_packets cfg p t (r ∷ rs) =
    let (p', t') = gateway_packet cfg p t r in gateway_packets cfg p' t' rs

-- In `gateway` mode the one client is where the first packet of a batch came from.
unfoldable pub learn_gateway_client : Setup → List Received → ProxyState → ProxyState
unfolding session_addr_copy session_addr_equal
learn_gateway_client cfg [] p = p
learn_gateway_client cfg (r ∷ rs) p =
    let (copy, len) = session_addr_copy r.addr r.addr_len in
    let known = record p { client_addr = copy; client_addr_len = len; has_client = true } in
    if is_server cfg.awg.mode || not (is_ip r.addr)
    then p
    else if p.has_client && session_addr_equal p.client_addr r.addr
    then p
    else known

-- One turn of the thread.
unfoldable pub c2s_gateway : Setup → ProxyState → Thread → List Received → ProxyState × Thread
unfolding learn_gateway_client gateway_packets send_batch
c2s_gateway cfg p t rs =
    let learnt = learn_gateway_client cfg rs (record p { last_active = true }) in
    let (p', t') = gateway_packets cfg learnt t rs in
    if not learnt.remote_open then (learnt, t) else (p', send_batch t')
