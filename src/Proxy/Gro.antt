-- ===== src/Proxy/Gro.antt =====
-- The split of a datagram that the kernel has coalesced (GRO), in src/proxy_c2s_client.c and in
-- `s2c_thread` of src/proxy.c, and the turn of the latter for the client.
use std.Path.{subst}
use awg2_webui.Base.{
  if_true, if_false, u32, ℕ, zero, suc, ◌+◌, ◌≤◌, ◌≡◌, ap, sym, Bool, true, false, not, ◌&&◌, ◌||◌,
  Option, some, none, List, [], ◌∷◌, ltb, leb, ◌==◌, if◌then◌else◌, length, length-append, take,
  drop, arith, Bool-cases, inl, inr, All, le_of_ltb-false,
}
use awg2_webui.Obfs.Unwrap.{obfs_unwrap}
use awg2_webui.Transform.{awg_packet_buf_size}
use awg2_webui.Proxy.{Setup, ProxyState, to, own, Thread}
use awg2_webui.Proxy.FromRemote.{inbound_bytes, push_client, proxy_s2c_process_client}

abbrev pub batch_size : ℕ
batch_size = 32

-- The packets of the client's datagram, on as much fuel as it has bytes; `count` is `nrecv`. A segment that
-- is too long is left out, and what comes after a full batch is lost.
unfoldable pub c2s_segments : ℕ → ℕ → ℕ → List ℕ → List (List ℕ)
c2s_segments zero seg_size count bytes = []
c2s_segments (suc fuel) seg_size count bytes =
    let piece = take seg_size bytes in
    let skip = ltb awg_packet_buf_size (length piece) in
    let rest =
      c2s_segments fuel seg_size (if skip then count else count + 1) (drop seg_size bytes) in
    if length bytes == 0 || leb batch_size count then [] else if skip then rest else piece ∷ rest

-- The packets of a datagram: the segments, or the datagram where it was not coalesced.
unfoldable pub c2s_received : ℕ → List ℕ → List (List ℕ)
unfolding c2s_segments
c2s_received seg_size bytes =
    if ltb 0 seg_size && ltb seg_size (length bytes)
    then c2s_segments (length bytes) seg_size 0 bytes
    else if ltb awg_packet_buf_size (length bytes)
    then []
    else bytes ∷ []

-- The segments of the remote end's datagram, until the batch is full.
unfoldable pub s2c_segments : Setup → ℕ → ℕ → ProxyState → Thread → List ℕ → ProxyState × Thread
unfolding proxy_s2c_process_client
s2c_segments cfg zero seg_size p t bytes = (p, t)
s2c_segments cfg (suc fuel) seg_size p t bytes =
    let (p', t') = proxy_s2c_process_client cfg p t (take seg_size bytes) in
    let rest = s2c_segments cfg fuel seg_size p' t' (drop seg_size bytes) in
    if length bytes == 0 || leb batch_size (length t.batch) then (p, t) else rest

-- The turn of `s2c_thread` for a datagram with GRO. The flag `last_remote_rx` belongs to Control.
unfoldable pub s2c_client_gro : Setup → ℕ → ProxyState → Thread → List ℕ → ProxyState × Thread
unfolding s2c_segments proxy_s2c_process_client
s2c_client_gro cfg seg_size p t bytes =
    let active = record p { last_active = true } in
    if not p.has_client
    then (active, t)
    else if ltb 0 seg_size && ltb seg_size (length bytes)
    then s2c_segments cfg (length bytes) seg_size active t bytes
    else proxy_s2c_process_client cfg active t bytes

-- The packets of a `recvmmsg`.
unfoldable pub s2c_client_packets :
    Setup → ProxyState → Thread → List (List ℕ) → ProxyState × Thread
unfolding proxy_s2c_process_client
s2c_client_packets cfg p t [] = (p, t)
s2c_client_packets cfg p t (pkt ∷ pkts) =
    let (p', t') = if length pkt == 0 then (p, t) else proxy_s2c_process_client cfg p t pkt in
    s2c_client_packets cfg p' t' pkts

-- The turn for them; the send is behind both turns.
unfoldable pub s2c_client_recv : Setup → ProxyState → Thread → List (List ℕ) → ProxyState × Thread
unfolding s2c_client_packets
s2c_client_recv cfg p t pkts =
    let active = record p { last_active = true } in
    if not p.has_client then (active, t) else s2c_client_packets cfg active t pkts

-- A packet fits the buffer that it is copied to.
abbrev pub FitsBuffer : List ℕ → Type 0
FitsBuffer piece = length piece ≤ awg_packet_buf_size

c2s_segments_lem :
    (fuel seg_size count : ℕ) (bytes : List ℕ)
    → count ≤ batch_size
    → All FitsBuffer (c2s_segments fuel seg_size count bytes)
      × (count + length (c2s_segments fuel seg_size count bytes) ≤ batch_size)
unfolding c2s_segments
c2s_segments_lem zero seg_size count bytes h = (tt, omega (arith, h))
c2s_segments_lem (suc fuel) seg_size count bytes h =
    elim (Bool-cases (length bytes == 0 || leb batch_size count)) [
      | inl done ↦ rw (done) (tt, omega (arith, h))
      | inr more ↦ elim (Bool-cases (ltb awg_packet_buf_size (length (take seg_size bytes)))) [
        | inl long ↦ rw (more, long) (c2s_segments_lem fuel seg_size count (drop seg_size bytes) h)
        | inr short ↦
            let room : count + 1 ≤ batch_size = ground (arith, more) in
            let (fits, number) =
              c2s_segments_lem fuel seg_size (count + 1) (drop seg_size bytes) room in
            rw (more, short)
              (
                (le_of_ltb-false awg_packet_buf_size (length (take seg_size bytes)) short, fits),
                omega (arith, number),
              )
      ]
    ]

-- Whatever the client's datagram and the segment size that comes with it are, at most 32 packets are
-- received, and each of them fits the 1500 bytes of the buffer that it is copied to.
pub c2s_received_bounds :
    (seg_size : ℕ) (bytes : List ℕ)
    → All FitsBuffer (c2s_received seg_size bytes)
      × (length (c2s_received seg_size bytes) ≤ batch_size)
unfolding c2s_received
c2s_received_bounds seg_size bytes =
    elim (Bool-cases (ltb 0 seg_size && ltb seg_size (length bytes))) [
      | inl coalesced ↦
          let (fits, number) = c2s_segments_lem (length bytes) seg_size 0 bytes (omega arith) in
          rw (coalesced) (fits, omega (arith, number))
      | inr single ↦ elim (Bool-cases (ltb awg_packet_buf_size (length bytes))) [
        | inl long ↦ rw (single, long) (tt, omega arith)
        | inr short ↦
            rw (single, short)
              ((le_of_ltb-false awg_packet_buf_size (length bytes) short, tt), omega arith)
      ]
    ]

push_client-batch :
    (p : ProxyState) (t : Thread) (out : Option (List ℕ))
    → length (push_client p t out).batch ≤ length t.batch + 1
unfolding push_client
push_client-batch p t none = omega arith
push_client-batch p t (some out) = omega (
  arith,
  length-append t.batch (record { dest = to p.client_addr p.client_addr_len; vec = own out } ∷ []),
)

-- A packet adds one message to the batch at most.
process_client-batch :
    (cfg : Setup) (p : ProxyState) (t : Thread) (pkt : List ℕ)
    → length (proxy_s2c_process_client cfg p t pkt).1.batch ≤ length t.batch + 1
unfolding proxy_s2c_process_client
process_client-batch cfg p t pkt = added (obfs_unwrap p.obfs_s2c pkt).0
  where
    next : ProxyState
    next = record p { obfs_s2c = (obfs_unwrap p.obfs_s2c pkt).1 }

    added :
        (unwrapped : Option (List ℕ))
        → length
            (elim unwrapped as (λ o. ProxyState × Thread) [
              | none ↦ (record next { obfs_fail_s2c = u32 (p.obfs_fail_s2c + 1) }, t)
              | some body ↦ (next, push_client next t (inbound_bytes cfg.awg body))
            ]).1.batch
          ≤ length t.batch + 1
    added none = omega arith
    added (some body) = push_client-batch next t (inbound_bytes cfg.awg body)

s2c_segments-batch :
    (cfg : Setup) (fuel seg_size : ℕ) (p : ProxyState) (t : Thread) (bytes : List ℕ)
    → length t.batch ≤ batch_size
    → length (s2c_segments cfg fuel seg_size p t bytes).1.batch ≤ batch_size
unfolding s2c_segments
s2c_segments-batch cfg zero seg_size p t bytes h = h
s2c_segments-batch cfg (suc fuel) seg_size p t bytes h =
    elim (Bool-cases (length bytes == 0 || leb batch_size (length t.batch))) [
      | inl done ↦ subst Fitting (sym (if_true _ done (p, t) rest)) h
      | inr more ↦
          let room : length t.batch + 1 ≤ batch_size = ground (arith, more) in
          let one : length r.1.batch ≤ length t.batch + 1 =
            process_client-batch cfg p t (take seg_size bytes) in
          subst Fitting (sym (if_false _ more (p, t) rest)) (
            s2c_segments-batch cfg fuel seg_size r.0 r.1 (drop seg_size bytes)
              (omega (arith, room, one)))
    ]
  where
    r : ProxyState × Thread
    r = proxy_s2c_process_client cfg p t (take seg_size bytes)

    rest : ProxyState × Thread
    rest = s2c_segments cfg fuel seg_size r.0 r.1 (drop seg_size bytes)

    Fitting : ProxyState × Thread → Type 0
    Fitting x = length x.1.batch ≤ batch_size

-- However the remote end's datagram is cut into segments, the batch for the client never grows over the
-- 32 places that it has.
pub s2c_client_gro-batch :
    (cfg : Setup) (seg_size : ℕ) (p : ProxyState) (t : Thread) (bytes : List ℕ)
    → t.batch ≡ []
    → length (s2c_client_gro cfg seg_size p t bytes).1.batch ≤ batch_size
unfolding s2c_client_gro
s2c_client_gro-batch cfg seg_size p t bytes empty =
    let start : length t.batch ≡ 0 = ap (λ l. length l) empty in
    let active : ProxyState = record p { last_active = true } in
    let one : length (proxy_s2c_process_client cfg active t bytes).1.batch ≤ length t.batch + 1 =
      process_client-batch cfg active t bytes in
    if-within (not p.has_client) _ _ (omega (arith, start)) (
      if-within (ltb 0 seg_size && ltb seg_size (length bytes)) _ _
        (s2c_segments-batch cfg (length bytes) seg_size active t bytes (omega (arith, start)))
        (omega (arith, start, one)))
  where
    if-within :
        (b : Bool) (x y : ProxyState × Thread)
        → length x.1.batch ≤ batch_size
        → length y.1.batch ≤ batch_size
        → length (if b then x else y).1.batch ≤ batch_size
    if-within true x y h k = h
    if-within false x y h k = k
