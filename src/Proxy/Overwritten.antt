-- ===== src/Proxy/Overwritten.antt =====
-- A batch of src/proxy_s2c_gateway.c whose packets share `obfs_buf` of src/obfs.c.
use mathlib.Core.List.{map}
use mathlib.Core.Bool.{false≢true}
use awg2_webui.Base.{
  ℕ, zero, suc, ◌+◌, ◌≤◌, ◌≡◌, refl, ap, ◌∙◌, Bool, true, false, Option, some, none, List, [], ◌∷◌,
  ◌++◌, ltb, ◌==◌, if◌then◌else◌, if_true, if_false, length, take, drop, take-append, arith,
  low_bits, Bool-cases, inl, inr,
}
use awg2_webui.Obfs.{Profile, is_off}
use awg2_webui.Obfs.Wrap.{obfs_wrap}
use awg2_webui.Transform.{Hrange, gateway}
use awg2_webui.Session.{Addr}
use awg2_webui.Proxy.Client.{Packet, data_header, is_data}
use awg2_webui.Proxy.Gateway.{
  Route, route, s2c_data, s2c_other, s2c_routed, pick_obfs_tx, set_obfs_tx,
  proxy_s2c_process_gateway, s2c_gateway_packets, s2c_gateway,
}
use awg2_webui.Proxy.{
  fill_h4_ring, pick_h4, Setup, ProxyState, to, own, obfs_max_packet_len, Dest, Iovec, in_obfs_buf,
  Thread, iov_datagram, stored, send_batch, push, wrapped_place, push_wrapped, deliver,
}

take-take : (n : ℕ) (b buf : List ℕ) → n ≤ length b → take n (b ++ buf) ≡ take n b
take-take zero b buf le = refl
take-take (suc n) [] buf le = absurd (omega arith)
take-take (suc n) (x ∷ b) buf le = ap (λ l. x ∷ l) (take-take n b buf (omega arith))

deliver_on :
    (dest : Dest) (profile : Profile) (vec : Iovec) (w : List ℕ) (t : Thread)
    → is_off profile ≡ false
    → deliver dest false profile vec [] (some w) t
      ≡ push (record t { obfs_buf = stored w t.obfs_buf }) dest (in_obfs_buf (length w))
unfolding deliver push_wrapped wrapped_place
deliver_on dest profile vec w t on = rw (on) refl

-- Two frames in a batch that was empty.
two_frames :
    (dest : Dest) (profile profile' : Profile) (vec vec' : Iovec) (w w' : List ℕ) (t : Thread)
    → is_off profile ≡ false
    → is_off profile' ≡ false
    → t.batch ≡ []
    → length w ≤ length w'
    → (send_batch (
        deliver dest false profile' vec' []
          (some w')
          (deliver dest false profile vec [] (some w) t))).sent
      ≡ t.sent
        ++ (record { dest = dest; bytes = take (length w) w' }
            ∷ record { dest = dest; bytes = w' }
            ∷ [])
unfolding send_batch
two_frames dest profile profile' vec vec' w w' t on on' empty le =
    ap (λ s. (send_batch (deliver dest false profile' vec' [] (some w') s)).sent)
      (deliver_on dest profile vec w t on)
    ∙ ap (λ s. (send_batch s).sent) (deliver_on dest profile' vec' w' first on')
    ∙ ap
        (λ l.
          t.sent
          ++ map (iov_datagram second) (
              (l ++ (record { dest = dest; vec = in_obfs_buf (length w) } ∷ []))
              ++ (record { dest = dest; vec = in_obfs_buf (length w') } ∷ [])))
        empty
    ∙ ap
        (λ b.
          t.sent
          ++ (record { dest = dest; bytes = b }
              ∷ record { dest = dest; bytes = take (length w') second.obfs_buf }
              ∷ []))
        (take-take (length w) w' (drop (length w') first.obfs_buf) le)
    ∙ ap
        (λ b.
          t.sent
          ++ (record { dest = dest; bytes = take (length w) w' }
              ∷ record { dest = dest; bytes = b }
              ∷ []))
        (take-append (length w') w' (drop (length w') first.obfs_buf) refl)
  where
    first : Thread
    first = push (record t { obfs_buf = stored w t.obfs_buf }) dest (in_obfs_buf (length w))

    second : Thread
    second =
        push (record first { obfs_buf = stored w' first.obfs_buf }) dest (in_obfs_buf (length w'))

-- The route of every packet in `gateway` mode.
abbrev pub client_route : ProxyState → Route
client_route p = record {
  slot = none;
  addr = p.client_addr;
  addr_len = p.client_addr_len;
  index = none;
}

-- A data packet as it is wrapped in `gateway` mode.
abbrev pub data_frame : Setup → ProxyState → Packet → Option (List ℕ)
data_frame cfg p pkt =
    (obfs_wrap (data_header cfg p pkt.bytes).1.obfs_s2c
      (pkt.room ++ (data_header cfg p pkt.bytes).0)).0

-- It is sent, under a disguise.
abbrev pub IsSent : Setup → ProxyState → Packet → List ℕ → Type 0
IsSent cfg p pkt w =
    (is_data pkt.bytes ≡ true)
    × (ltb (obfs_max_packet_len cfg) (length (pkt.room ++ (data_header cfg p pkt.bytes).0)) ≡ false)
    × (is_off (data_header cfg p pkt.bytes).1.obfs_s2c.profile ≡ false)
    × (data_frame cfg p pkt ≡ some w)

not_empty : (pkt : List ℕ) → is_data pkt ≡ true → (length pkt == 0) ≡ false
not_empty [] is = absurd (false≢true is)
not_empty (x ∷ pkt) is = ground arith

-- The client that the state knows.
abbrev client_of : ProxyState → Bool × Addr × ℕ
client_of p = (p.has_client, p.client_addr, p.client_addr_len)

if-same {ℓ} :
    {A : Type ℓ} (f : ProxyState → A) (v : A) (b : Bool) (x y : ProxyState)
    → f x ≡ v
    → f y ≡ v
    → f (if b then x else y) ≡ v
if-same f v true x y h k = h
if-same f v false x y h k = k

client_of-fill_h4_ring : (r : Hrange) (p : ProxyState) → client_of (fill_h4_ring r p) ≡ client_of p
unfolding fill_h4_ring
client_of-fill_h4_ring r p = if-same client_of (client_of p) (r.min == r.max) _ _ refl refl

client_of-pick_h4 : (r : Hrange) (p : ProxyState) → client_of (pick_h4 r p).1 ≡ client_of p
unfolding pick_h4
client_of-pick_h4 r p =
    if-same client_of (client_of p) (low_bits (p.h4_idx + 1) 12 == 0) _ _
      (client_of-fill_h4_ring r (record p { h4_idx = low_bits (p.h4_idx + 1) 12 })) refl

client_of-data_header :
    (cfg : Setup) (p : ProxyState) (pkt : List ℕ)
    → client_of (data_header cfg p pkt).1 ≡ client_of p
unfolding data_header
client_of-data_header cfg p pkt = elim (Bool-cases cfg.awg.h4_noop) [
  | inl e ↦ ap (λ (x : List ℕ × ProxyState). client_of x.1) (if_true cfg.awg.h4_noop e _ _)
  | inr e ↦
      ap (λ (x : List ℕ × ProxyState). client_of x.1) (if_false cfg.awg.h4_noop e _ _)
      ∙ client_of-pick_h4 cfg.awg.h4 p
]

client_of-s2c_data :
    (cfg : Setup) (q p : ProxyState) (t : Thread) (pkt : Packet)
    → client_of (s2c_data cfg (client_route q) p t pkt).0 ≡ client_of p
unfolding s2c_data set_obfs_tx pick_obfs_tx
client_of-s2c_data cfg q p t pkt =
    let long : Bool =
      ltb (obfs_max_packet_len cfg) (length (pkt.room ++ (data_header cfg p pkt.bytes).0)) in
    elim (Bool-cases long) [
      | inl e ↦
          ap (λ (x : ProxyState × Thread). client_of x.0) (if_true long e _ _)
          ∙ client_of-data_header cfg p pkt.bytes
      | inr e ↦
          ap (λ (x : ProxyState × Thread). client_of x.0) (if_false long e _ _)
          ∙ client_of-data_header cfg p pkt.bytes
    ]

module _ (clock : ℕ → ℕ) (cfg : Setup) (mode : cfg.awg.mode ≡ gateway) where
  route_client :
      (p : ProxyState) (pkt : List ℕ)
      → p.has_client ≡ true
      → route cfg.awg.mode p pkt ≡ some (client_route p)
  unfolding route
  route_client p pkt known =
      ap (λ m. route m p pkt) mode ∙ if_true p.has_client known (some (client_route p)) none

  process_data :
      (p : ProxyState) (t : Thread) (pkt : Packet)
      → p.has_client ≡ true
      → is_data pkt.bytes ≡ true
      → proxy_s2c_process_gateway clock cfg p t pkt ≡ s2c_data cfg (client_route p) p t pkt
  unfolding proxy_s2c_process_gateway
  process_data p t pkt known is =
      ap (λ r. s2c_routed clock cfg r p t pkt) (route_client p pkt.bytes known)
      ∙ unfold s2c_routed in
        if_true (is_data pkt.bytes) is (s2c_data cfg (client_route p) p t pkt)
          (s2c_other clock cfg (client_route p) p t pkt)

  s2c_data_lem :
      (p : ProxyState) (t : Thread) (pkt : Packet) (w : List ℕ)
      → IsSent cfg p pkt w
      → (s2c_data cfg (client_route p) p t pkt).1
        ≡ deliver
            (to p.client_addr p.client_addr_len)
            false
            (data_header cfg p pkt.bytes).1.obfs_s2c.profile
            (own (pkt.room ++ (data_header cfg p pkt.bytes).0))
            []
            (some w)
            t
  unfolding s2c_data pick_obfs_tx
  s2c_data_lem p t pkt w (is, fits, on, e) =
      ap (λ (x : ProxyState × Thread). x.1)
        (if_false
          (ltb (obfs_max_packet_len cfg) (length (pkt.room ++ (data_header cfg p pkt.bytes).0)))
          fits _ _)
      ∙ ap
          (λ o.
            deliver (to p.client_addr p.client_addr_len) false
              (data_header cfg p pkt.bytes).1.obfs_s2c.profile
              (own (pkt.room ++ (data_header cfg p pkt.bytes).0)) [] o t)
          e

  one_packet :
      (p : ProxyState) (t : Thread) (pkt : Packet) (pkts : List Packet)
      → p.has_client ≡ true
      → is_data pkt.bytes ≡ true
      → s2c_gateway_packets clock cfg p t (pkt ∷ pkts)
        ≡ s2c_gateway_packets clock cfg
            (s2c_data cfg (client_route p) p t pkt).0
            (s2c_data cfg (client_route p) p t pkt).1
            pkts
  unfolding s2c_gateway_packets
  one_packet p t pkt pkts known is =
      if_false (length pkt.bytes == 0) (not_empty pkt.bytes is) _ _
      ∙ ap (λ (x : ProxyState × Thread). s2c_gateway_packets clock cfg x.0 x.1 pkts)
          (process_data p t pkt known is)

  -- In `gateway` mode, when two data packets of one batch are sent under a disguise, both datagrams are
  -- read from the buffer that the second packet was wrapped in. With a first frame no longer than
  -- the second, the first datagram holds bytes of the second packet only.
  pub s2c_gateway-overwritten :
      (p : ProxyState) (t : Thread) (a b : Packet) (wa wb : List ℕ)
      → t.batch ≡ []
      → p.has_client ≡ true
      → IsSent cfg p a wa
      → IsSent cfg (s2c_data cfg (client_route p) p t a).0 b wb
      → length wa ≤ length wb
      → (s2c_gateway clock cfg p t (a ∷ b ∷ [])).1.sent
        ≡ t.sent
          ++ (record { dest = to p.client_addr p.client_addr_len; bytes = take (length wa) wb }
              ∷ record { dest = to p.client_addr p.client_addr_len; bytes = wb }
              ∷ [])
  unfolding s2c_gateway
  s2c_gateway-overwritten p t a b wa wb empty known sent_a sent_b le =
      let r : Route = client_route p in
      let p' : ProxyState = (s2c_data cfg r p t a).0 in
      let t' : Thread = (s2c_data cfg r p t a).1 in
      let same : client_of p' ≡ client_of p = client_of-s2c_data cfg p p t a in
      let first : t' ≡ deliver (to p.client_addr p.client_addr_len) false _ _ [] (some wa) t =
        s2c_data_lem p t a wa sent_a in
      ap (λ (x : ProxyState × Thread). (send_batch x.1).sent)
        (one_packet p t a (b ∷ []) known sent_a.0
          ∙ one_packet p' t' b [] (ap (λ c. c.0) same ∙ known) sent_b.0)
      ∙ ap (λ s. (send_batch s).sent) (s2c_data_lem p' t' b wb sent_b)
      ∙ ap
          (λ c.
            (send_batch (
              deliver (to c.1 c.2) false (data_header cfg p' b.bytes).1.obfs_s2c.profile
                (own (b.room ++ (data_header cfg p' b.bytes).0)) [] (some wb) t')).sent)
          same
      ∙ ap
          (λ s.
            (send_batch (
              deliver (to p.client_addr p.client_addr_len) false
                (data_header cfg p' b.bytes).1.obfs_s2c.profile
                (own (b.room ++ (data_header cfg p' b.bytes).0)) [] (some wb) s)).sent)
          first
      ∙ two_frames (to p.client_addr p.client_addr_len)
          (data_header cfg p a.bytes).1.obfs_s2c.profile
          (data_header cfg p' b.bytes).1.obfs_s2c.profile
          (own (a.room ++ (data_header cfg p a.bytes).0))
          (own (b.room ++ (data_header cfg p' b.bytes).0)) wa wb t sent_a.2 sent_b.2 empty le
