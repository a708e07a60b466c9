-- ===== src/Transform/RoundTripData.antt =====
-- `transform_inbound` after `transform_outbound` (src/transform.c), for data packets. One configuration stands for both ends: its outbound and inbound keys are independent,
-- and the sizes and H ranges are those that both ends share.
use awg2_webui.Base.{
  ℕ, ◌+◌, ◌-◌, ◌≤◌, ◌<◌, ◌^◌, ◌≡◌, ap, ◌∙◌, true, false, Bool-cases, inl, inr, Option, some, List,
  [], ◌++◌, length, drop, arith, if◌then◌else◌, ◌==◌, length-append, drop-append, length-drop, ltb,
}
use awg2_webui.Transform.{Config, hrange_contains, hrange_pick, read32_le, write32_le}
use awg2_webui.Transform.Ranges.{IsRange, hrange_pick-mem}
use awg2_webui.Transform.Computed.{IsComputed}
use awg2_webui.Transform.Layout.{write-read32, read32-write, length-write32}
use awg2_webui.Transform.Outbound.{transform_outbound_with_mac1}
use awg2_webui.Transform.Inbound.{transform_inbound}
use awg2_webui.Transform.Dispatch.{takes_transport}

module _ (c : Config) (headroom pkt : List ℕ) (key : Option (List ℕ)) (rand_val : ℕ) where
  abbrev pub sent : List ℕ
  sent = (transform_outbound_with_mac1 headroom pkt c key rand_val).bytes

  abbrev front : List ℕ
  front = if ltb 0 c.s4 then drop (length headroom - c.s4) headroom else []

  length-front : c.s4 ≤ length headroom → length front ≡ c.s4
  length-front room = ground (arith, length-drop (length headroom - c.s4) headroom)

  -- The header word of a data packet.
  abbrev data_word : ℕ
  data_word = if c.h4.min == c.h4.max then c.h4_fixed else hrange_pick c.h4 rand_val

  data_word-mem :
      IsComputed c → IsRange c.h4 → (hrange_contains c.h4 data_word ≡ true) × (data_word < 2 ^ 32)
  unfolding hrange_contains
  data_word-mem computed range = ground (arith, hrange_pick-mem c.h4 rand_val range)

  sent_noop :
      c.h4_noop ≡ true → 32 ≤ length pkt → read32_le pkt ≡ 4 → transform_inbound c sent ≡ some pkt
  unfolding transform_outbound_with_mac1 transform_inbound
  sent_noop noop l t = ground arith

  sent_transport :
      c.h4_noop ≡ false
      → c.s4 ≤ length headroom
      → 32 ≤ length pkt
      → read32_le pkt ≡ 4
      → sent ≡ front ++ write32_le pkt data_word
  unfolding transform_outbound_with_mac1
  sent_transport noop room l t = ground arith

  length-sent :
      c.h4_noop ≡ false
      → c.s4 ≤ length headroom
      → 32 ≤ length pkt
      → read32_le pkt ≡ 4
      → length sent ≡ c.s4 + length pkt
  length-sent off room l t =
      ap length (sent_transport off room l t)
      ∙ length-append front (write32_le pkt data_word)
      ∙ omega (arith, length-front room, length-write32 pkt data_word (omega arith))

  -- A data packet of at least 32 bytes comes in as it went out, where the caller left `s4` bytes of
  -- headroom, unless it has the length of a padded handshake or cookie and happens to hold that
  -- one's header.
  pub inbound-outbound_transport :
      IsComputed c
      → IsRange c.h4
      → c.s4 ≤ length headroom
      → 32 ≤ length pkt
      → read32_le pkt ≡ 4
      → (length sent ≡ c.init_total → hrange_contains c.h1 (read32_le (drop c.s1 sent)) ≡ false)
      → (length sent ≡ c.resp_total → hrange_contains c.h2 (read32_le (drop c.s2 sent)) ≡ false)
      → (length sent ≡ c.cookie_total → hrange_contains c.h3 (read32_le (drop c.s3 sent)) ≡ false)
      → transform_inbound c sent ≡ some pkt
  inbound-outbound_transport computed range room l t m1 m2 m3 = elim (Bool-cases c.h4_noop) [
    | inl noop ↦ sent_noop noop l t
    | inr off ↦
        let form = sent_transport off room l t in
        let total = length-sent off room l t in
        let behind : drop c.s4 sent ≡ write32_le pkt data_word =
          ap (drop c.s4) form
          ∙ drop-append c.s4 front (write32_le pkt data_word) (length-front room) in
        let word = data_word-mem computed range in
        takes_transport c sent (omega (arith, total)) (λ h. cc) m1 m2 m3 (omega (arith, total))
          (ap (λ b. hrange_contains c.h4 (read32_le b)) behind
            ∙ ap (hrange_contains c.h4) (read32-write pkt data_word word.1)
            ∙ word.0)
        ∙ ap (λ b. some (write32_le b 4)) behind
        ∙ ap some (write-read32 pkt 4 (omega arith) (omega arith) t)
  ]

  -- Where `transport_size_ambiguous` is not set no data packet has the length of another kind, so the
  -- data packet comes in as it went out with no such exception.
  pub inbound-outbound_unambiguous :
      IsComputed c
      → IsRange c.h4
      → c.transport_size_ambiguous ≡ false
      → c.s4 ≤ length headroom
      → 32 ≤ length pkt
      → read32_le pkt ≡ 4
      → transform_inbound c sent ≡ some pkt
  inbound-outbound_unambiguous computed range apart room l t = elim (Bool-cases c.h4_noop) [
    | inl noop ↦ sent_noop noop l t
    | inr off ↦
        let total = length-sent off room l t in
        inbound-outbound_transport computed range room l t
          (λ e. absurd (omega (arith, total, computed.init_apart apart)))
          (λ e. absurd (omega (arith, total, computed.resp_apart apart)))
          (λ e. absurd (omega (arith, total, computed.cookie_apart apart)))
  ]
