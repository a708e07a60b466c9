-- ===== src/Proxy/EndToEnd.antt =====
-- The way of a data packet from the client's proxy (src/proxy_c2s_client.c) through the fast path of
-- the other end (src/proxy_s2c_client.c; src/proxy_c2s_gateway.c has the same one).
use mathlib.Core.List.{map}
use awg2_webui.Base.{
  ℕ, ◌+◌, ◌≤◌, ◌≡◌, refl, ap, ◌∙◌, true, false, Option, some, List, [], ◌∷◌, ◌++◌, ◌==◌, length,
  drop, drop-append, length-append, arith, Bool-cases, inl, inr,
}
use awg2_webui.Transform.{Hrange, Config, hrange_contains, read32_le, write32_le, wg_transport_data}
use awg2_webui.Transform.Ranges.{IsRange}
use awg2_webui.Transform.Computed.{IsComputed}
use awg2_webui.Transform.Layout.{write-read32, read32-write, length-write32}
use awg2_webui.Proxy.{Setup, ProxyState, pick_h4, Datagram}
use awg2_webui.Proxy.Client.{Packet, data_header, is_data}
use awg2_webui.Proxy.ClientBatch.{sends}
use awg2_webui.Proxy.FromRemote.{inbound_bytes, inbound_data, is_data_size}
use awg2_webui.Proxy.Ring.{IsMember, IsRing, pick_h4-IsRing}

-- What the other end makes of the datagrams.
abbrev pub received : Config → List Datagram → List (Option (List ℕ))
received c ds = map (λ (d : Datagram). inbound_bytes c d.bytes) ds

takes_data :
    (c : Config) (room out : List ℕ)
    → length room ≡ c.s4
    → is_data_size c (c.s4 + length out) ≡ true
    → hrange_contains c.h4 (read32_le out) ≡ true
    → inbound_bytes c (room ++ out) ≡ some (write32_le out wg_transport_data)
unfolding inbound_bytes inbound_data
takes_data c room out len size member =
    let total : length (room ++ out) ≡ c.s4 + length out =
      length-append room out ∙ ap (λ n. n + length out) len in
    let body : drop c.s4 (room ++ out) ≡ out = drop-append c.s4 room out len in
    rw (total, body, size, member) refl

-- A data packet with a new header: its length stays, the header is that one, and 4 restores it.
headed :
    (r : Hrange) (pkt : List ℕ) (h : ℕ)
    → is_data pkt ≡ true
    → IsMember r h
    → let out = write32_le pkt h in
      (length out ≡ length pkt)
      × ((hrange_contains r (read32_le out) ≡ true) × (write32_le out wg_transport_data ≡ pkt))
headed r pkt h type (mem, fits) =
    let long : 32 ≤ length pkt = ground arith in
    let word : read32_le pkt ≡ 4 = ground arith in
    (
      length-write32 pkt h (omega (arith, long)),
      (
        ap (hrange_contains r) (read32-write pkt h fits) ∙ mem,
        write-read32 pkt 4 (omega arith) (omega (arith, long)) word,
      ),
    )

data_not_empty : (pkt : List ℕ) → is_data pkt ≡ true → (length pkt == 0) ≡ false
data_not_empty pkt type = ground arith

contains_4 : (r : Hrange) → r.min ≡ 4 → r.max ≡ 4 → hrange_contains r 4 ≡ true
unfolding hrange_contains
contains_4 r lo hi = ground arith

module _ (cfg : Setup) (computed : IsComputed cfg.awg) (range : IsRange cfg.awg.h4) where
  data_header_lem :
      (p : ProxyState) (pkt : List ℕ)
      → IsRing cfg.awg.h4 p
      → is_data pkt ≡ true
      → let out = (data_header cfg p pkt).0 in
        (length out ≡ length pkt)
        × ((hrange_contains cfg.awg.h4 (read32_le out) ≡ true)
            × (write32_le out wg_transport_data ≡ pkt))
  unfolding data_header
  data_header_lem p pkt ring type = elim (Bool-cases cfg.awg.h4_noop) [
    | inl noop ↦
        let long : 32 ≤ length pkt = ground arith in
        let word : read32_le pkt ≡ 4 = ground arith in
        rw (noop) (
          refl,
          (
            ap (hrange_contains cfg.awg.h4) word
                ∙ contains_4 cfg.awg.h4 (computed.noop_min noop) (computed.noop_max noop),
            write-read32 pkt 4 (omega arith) (omega (arith, long)) word,
          ),
        )
    | inr on ↦ rw (on) (
        headed cfg.awg.h4 pkt (pick_h4 cfg.awg.h4 p).0 type
          (pick_h4-IsRing cfg.awg.h4 p range ring).0)
  ]

  -- A data packet that the client's proxy sends is a single datagram, and the other end, with the same
  -- computed configuration, makes the packet that came from WireGuard of it, whatever the ring gave.
  -- Where the sizes are ambiguous, the padded packet must not have the length of a padded handshake
  -- or cookie reply. The buffer has the headroom that the configuration asks for.
  pub sends-inbound_bytes :
      (clock : ℕ → ℕ) (p : ProxyState) (pkt : Packet)
      → IsRing cfg.awg.h4 p
      → length pkt.room ≡ cfg.awg.s4
      → is_data pkt.bytes ≡ true
      → is_data_size cfg.awg (cfg.awg.s4 + length pkt.bytes) ≡ true
      → received cfg.awg (sends clock cfg p pkt).0 ≡ some pkt.bytes ∷ []
  unfolding sends
  sends-inbound_bytes clock p pkt ring room type size =
      let out : List ℕ = (data_header cfg p pkt.bytes).0 in
      let (len, (mem, back)) = data_header_lem p pkt.bytes ring type in
      let filled : (length pkt.bytes == 0) ≡ false = data_not_empty pkt.bytes type in
      rw (filled, type)
        (ap (λ b. b ∷ [])
          (takes_data cfg.awg pkt.room out room
              (ap (λ n. is_data_size cfg.awg (cfg.awg.s4 + n)) len ∙ size) mem
            ∙ ap some back))
