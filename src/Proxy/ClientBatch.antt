-- ===== src/Proxy/ClientBatch.antt =====
-- The batches of src/proxy_c2s_client.c against a sender that has none.
use mathlib.Core.Bool.{false≢true}
use mathlib.Core.Option.{none-ne-some, some-injective}
use mathlib.Core.List.{map, append_assoc, append-nil, map-append}
use awg2_webui.Base.{
  ℕ, ◌≡◌, refl, ap, sym, ◌∙◌, Bool, true, false, not, Option, some, none, List, [], ◌∷◌, ◌++◌, ltb,
  ◌==◌, if◌then◌else◌, length, take, drop, take-append, Bool-cases, inl, inr,
}
use awg2_webui.Rand.{fastrand_u64}
use awg2_webui.Obfs.{Profile, off, is_off, Session}
use awg2_webui.Obfs.Wrap.{obfs_wrap, wrap_as, wrap_plain}
use awg2_webui.Transform.{Config}
use awg2_webui.Transform.Outbound.{Output, transform_outbound}
use awg2_webui.Proxy.{
  Setup, ProxyState, Dest, remote, Datagram, Iovec, own, Thread, iov_bytes, iov_datagram, stored,
  in_static, send_batch, push, emit_now, outbound_place, wrapped_place, push_wrapped, wrapped_of,
  deliver, obfs_max_packet_len, send_junk_and_cps,
}
use awg2_webui.Proxy.Client.{
  Packet, data_header, is_data, c2s_data, c2s_other, c2s_packet, c2s_packets, learn_client,
  c2s_client,
}
use awg2_webui.Session.{Addr}

abbrev pub one : List ℕ → List Datagram
one b = record { dest = remote; bytes = b } ∷ []

abbrev maybe_one : Option (List ℕ) → List Datagram
maybe_one none = []
maybe_one (some b) = one b

-- What a packet that is not data is sent as, at once and in buffers of its own.
unfoldable pub sends_other : (ℕ → ℕ) → Setup → ProxyState → Packet → List Datagram × ProxyState
unfolding wrapped_of
sends_other clock cfg p pkt =
    let rand = fastrand_u64 p.rng in
    let seeded = record p { rng = rand } in
    let out = transform_outbound pkt.room pkt.bytes cfg.awg rand in
    let (junk, emitted) = send_junk_and_cps clock cfg remote seeded in
    let (wrapped, session) = obfs_wrap p.obfs_c2s out.bytes in
    let too_long = ltb (obfs_max_packet_len cfg) (length out.bytes) in
    let next = if out.send_junk then emitted else seeded in
    (
      (if out.send_junk then junk else []) ++ maybe_one (wrapped_of too_long wrapped),
      if too_long then next else record next { obfs_c2s = session },
    )

-- What one packet is sent as.
unfoldable pub sends : (ℕ → ℕ) → Setup → ProxyState → Packet → List Datagram × ProxyState
unfolding data_header sends_other
sends clock cfg p pkt =
    let (plain, counted) = data_header cfg p pkt.bytes in
    if length pkt.bytes == 0
    then ([], p)
    else if is_data pkt.bytes
    then (one (pkt.room ++ plain), counted)
    else sends_other clock cfg p pkt

unfoldable pub sends_all : (ℕ → ℕ) → Setup → ProxyState → List Packet → List Datagram × ProxyState
unfolding sends
sends_all clock cfg p [] = ([], p)
sends_all clock cfg p (pkt ∷ pkts) =
    let (ds, p') = sends clock cfg p pkt in
    let (rest, last) = sends_all clock cfg p' pkts in (ds ++ rest, last)

-- What the thread has sent and will have sent once its batch goes out.
abbrev pub view : Thread → List Datagram
view t = t.sent ++ map (iov_datagram t) t.batch

take-stored : (b buf : List ℕ) → take (length b) (stored b buf) ≡ b
take-stored b buf = take-append (length b) b (drop (length b) buf) refl

-- The place of an outbound packet holds it, and nothing else of the thread changes.
outbound_place_lem :
    (c : Config) (room pkt bytes : List ℕ) (t : Thread)
    → (iov_bytes (outbound_place c room pkt bytes t).1 (outbound_place c room pkt bytes t).0
        ≡ bytes)
      × ((outbound_place c room pkt bytes t).1.batch ≡ t.batch)
      × ((outbound_place c room pkt bytes t).1.sent ≡ t.sent)
unfolding outbound_place
outbound_place_lem c room pkt bytes t = elim (Bool-cases (in_static c (length room) pkt)) [
  | inl e ↦ rw (e) (take-stored bytes t.hs_buf, refl, refl)
  | inr e ↦ rw (e) (refl, refl, refl)
]

view-push :
    (t : Thread) (dest : Dest) (vec : Iovec)
    → view (push t dest vec) ≡ view t ++ (record { dest = dest; bytes = iov_bytes t vec } ∷ [])
view-push t dest vec =
    ap (λ l. t.sent ++ l)
      (map-append (iov_datagram t) t.batch (record { dest = dest; vec = vec } ∷ []))
    ∙ sym (
        append_assoc t.sent (map (iov_datagram t) t.batch)
          (record { dest = dest; bytes = iov_bytes t vec } ∷ []))

view-send_batch : (t : Thread) → view (send_batch t) ≡ view t
unfolding send_batch
view-send_batch t = append-nil (view t)

view_empty : (t : Thread) → t.batch ≡ [] → view t ≡ t.sent
view_empty t e = rw (e) (append-nil t.sent)

-- A wrapped packet lies where its bytes are: in `obfs_buf`, or under `off` where it was.
wrapped_place_lem :
    (profile : Profile) (vec : Iovec) (w : List ℕ) (t : Thread)
    → (is_off profile ≡ true → iov_bytes t vec ≡ w)
    → (iov_bytes (wrapped_place profile vec w t).1 (wrapped_place profile vec w t).0 ≡ w)
      × ((wrapped_place profile vec w t).1.batch ≡ t.batch)
      × ((wrapped_place profile vec w t).1.sent ≡ t.sent)
unfolding wrapped_place
wrapped_place_lem profile vec w t same = elim (Bool-cases (is_off profile)) [
  | inl e ↦ rw (e) (same e, refl, refl)
  | inr e ↦ rw (e) (take-stored w t.obfs_buf, refl, refl)
]

module _ (profile : Profile) (vec : Iovec) (junk : List Datagram) (t : Thread)
    (empty : t.batch ≡ []) where
  view-deliver :
      (send_junk : Bool) (wrapped : Option (List ℕ))
      → ((w : List ℕ) → wrapped ≡ some w → is_off profile ≡ true → iov_bytes t vec ≡ w)
      → view (deliver remote send_junk profile vec junk wrapped t)
        ≡ t.sent ++ ((if send_junk then junk else []) ++ maybe_one wrapped)
  unfolding deliver push_wrapped
  view-deliver true none same =
      view_empty (emit_now t junk) empty ∙ ap (λ l. t.sent ++ l) (sym (append-nil junk))
  view-deliver true (some w) same =
      let (bytes, batch, sent) = wrapped_place_lem profile vec w t (same w refl) in
      view_empty (emit_now (wrapped_place profile vec w t).1 (junk ++ one w)) (batch ∙ empty)
      ∙ ap (λ l. l ++ (junk ++ one w)) sent
  view-deliver false none same = view_empty t empty ∙ sym (append-nil t.sent)
  view-deliver false (some w) same =
      let (bytes, batch, sent) = wrapped_place_lem profile vec w t (same w refl) in
      let kept : Thread = (wrapped_place profile vec w t).1 in
      view-push kept remote (wrapped_place profile vec w t).0
      ∙ ap (λ l. l ++ one (iov_bytes kept (wrapped_place profile vec w t).0))
          (view_empty kept (batch ∙ empty) ∙ sent)
      ∙ ap (λ b. t.sent ++ one b) bytes

off_of : (profile : Profile) → is_off profile ≡ true → profile ≡ off
off_of off e = refl
off_of _ e = absurd (false≢true e)

-- Under `off` a packet is wrapped as itself.
obfs_wrap-off :
    (s : Session) (input : List ℕ) → is_off s.profile ≡ true → (obfs_wrap s input).0 ≡ some input
unfolding obfs_wrap wrap_plain
obfs_wrap-off s input e = ap (λ f. (f s input).0) (ap wrap_as (off_of s.profile e))

wrapped_of-some :
    (too_long : Bool) (wrapped : Option (List ℕ)) (w : List ℕ)
    → wrapped_of too_long wrapped ≡ some w
    → wrapped ≡ some w
unfolding wrapped_of
wrapped_of-some true wrapped w e = absurd (none-ne-some w e)
wrapped_of-some false wrapped w e = e

-- A state and a thread after some packets, against what they are sent as.
abbrev Matches : Thread → ProxyState × Thread → List Datagram × ProxyState → Type 0
Matches t x y = (x.0 ≡ y.1) × (view x.1 ≡ view t ++ y.0)

if-Matches :
    (t : Thread) (b : Bool) (x x' : ProxyState × Thread) (y y' : List Datagram × ProxyState)
    → Matches t x y
    → Matches t x' y'
    → Matches t (if b then x else x') (if b then y else y')
if-Matches t true x x' y y' h h' = h
if-Matches t false x x' y y' h h' = h'

module _ (clock : ℕ → ℕ) (cfg : Setup) where
  c2s_other-sends :
      (p : ProxyState) (t : Thread) (pkt : Packet)
      → t.batch ≡ []
      → view (c2s_other clock cfg p t pkt).1 ≡ t.sent ++ (sends_other clock cfg p pkt).0
  unfolding c2s_other sends_other
  c2s_other-sends p t pkt empty =
      let rand : ℕ = fastrand_u64 p.rng in
      let out : Output = transform_outbound pkt.room pkt.bytes cfg.awg rand in
      let place : Iovec × Thread = outbound_place cfg.awg pkt.room pkt.bytes out.bytes t in
      let (bytes, batch, sent) = outbound_place_lem cfg.awg pkt.room pkt.bytes out.bytes t in
      let too_long : Bool = ltb (obfs_max_packet_len cfg) (length out.bytes) in
      view-deliver p.obfs_c2s.profile place.0
        (send_junk_and_cps clock cfg remote (record p { rng = rand })).0 place.1 (batch ∙ empty)
        out.send_junk (wrapped_of too_long (obfs_wrap p.obfs_c2s out.bytes).0)
        (λ w e is.
          bytes
          ∙ some-injective out.bytes w (
              sym (obfs_wrap-off p.obfs_c2s out.bytes is)
              ∙ wrapped_of-some too_long (obfs_wrap p.obfs_c2s out.bytes).0 w e))
      ∙ ap (λ l. l ++ (sends_other clock cfg p pkt).0) sent

  c2s_packet-sends :
      (p : ProxyState) (t : Thread) (pkt : Packet)
      → Matches t (c2s_packet clock cfg p t pkt) (sends clock cfg p pkt)
  unfolding c2s_packet sends
  c2s_packet-sends p t pkt =
      if-Matches t (length pkt.bytes == 0) _ _ _ _ (refl, sym (append-nil (view t)))
        (if-Matches t (is_data pkt.bytes) _ _ _ _
          (unfold c2s_data in
            (refl, view-push t remote (own (pkt.room ++ (data_header cfg p pkt.bytes).0))))
          (
            unfold c2s_other in unfold sends_other in refl,
            c2s_other-sends p (send_batch t) pkt (unfold send_batch in refl)
                ∙ unfold send_batch in refl,
          ))

  c2s_packets-sends :
      (p : ProxyState) (t : Thread) (pkts : List Packet)
      → Matches t (c2s_packets clock cfg p t pkts) (sends_all clock cfg p pkts)
  unfolding c2s_packets sends_all
  c2s_packets-sends p t [] = (refl, sym (append-nil (view t)))
  c2s_packets-sends p t (pkt ∷ pkts) =
      let (state, out) = c2s_packet-sends p t pkt in
      let (last, rest) =
        c2s_packets-sends (c2s_packet clock cfg p t pkt).0 (c2s_packet clock cfg p t pkt).1 pkts in
      (
        last ∙ ap (λ q. (sends_all clock cfg q pkts).1) state,
        rest
            ∙ ap (λ l. l ++ (sends_all clock cfg (c2s_packet clock cfg p t pkt).0 pkts).0) out
            ∙ append_assoc (view t) (sends clock cfg p pkt).0
                (sends_all clock cfg (c2s_packet clock cfg p t pkt).0 pkts).0
            ∙ ap (λ q. view t ++ ((sends clock cfg p pkt).0 ++ (sends_all clock cfg q pkts).0))
                state,
      )

if_open {ℓ} : {A : Type ℓ} (b : Bool) → b ≡ true → (x y : A) → (if not b then x else y) ≡ y
if_open true e x y = refl
if_open false e x y = absurd (false≢true e)

sent-send_batch : (t : Thread) → (send_batch t).sent ≡ view t
unfolding send_batch
sent-send_batch t = refl

-- One turn with an open remote socket: the batches change neither what is sent nor the order, nor what
-- the proxy's state becomes. Although packets share the static buffers, each datagram holds the bytes
-- of its own packet.
pub c2s_client-sends_all :
    (clock : ℕ → ℕ) (cfg : Setup) (addr : Addr) (addr_len : ℕ) (p : ProxyState) (t : Thread)
    (pkts : List Packet)
    → t.batch ≡ []
    → (learn_client addr addr_len (record p { last_active = true })).remote_open ≡ true
    → let learnt = learn_client addr addr_len (record p { last_active = true }) in
      ((c2s_client clock cfg addr addr_len p t pkts).0 ≡ (sends_all clock cfg learnt pkts).1)
      × ((c2s_client clock cfg addr addr_len p t pkts).1.sent
          ≡ t.sent ++ (sends_all clock cfg learnt pkts).0)
unfolding c2s_client
c2s_client-sends_all clock cfg addr addr_len p t pkts empty fd =
    let learnt : ProxyState = learn_client addr addr_len (record p { last_active = true }) in
    let (state, out) = c2s_packets-sends clock cfg learnt t pkts in
    (
      ap (λ (x : ProxyState × Thread). x.0) (if_open learnt.remote_open fd _ _) ∙ state,
      ap (λ (x : ProxyState × Thread). x.1.sent) (if_open learnt.remote_open fd _ _)
          ∙ sent-send_batch (c2s_packets clock cfg learnt t pkts).1
          ∙ out
          ∙ ap (λ l. l ++ (sends_all clock cfg learnt pkts).0) (view_empty t empty),
    )
