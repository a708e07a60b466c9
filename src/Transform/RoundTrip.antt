-- ===== src/Transform/RoundTrip.antt =====
-- `transform_inbound` after `transform_outbound` (src/transform.c), for each kind of WireGuard
-- message. One configuration stands for both ends: its outbound and inbound keys are independent,
-- and the sizes and H ranges are those that both ends share.
use awg2_webui.Base.{
  ℕ, ◌+◌, ◌≡◌, ◌≢◌, sym, ap, ◌∙◌, true, false, Option, some, none, List, length, drop, arith,
  bit_xor,
}
use awg2_webui.Transform.{
  Config, hrange_contains, hrange_pick, read32_le, write32_le, seal_init, seal_response,
}
use awg2_webui.Transform.Ranges.{IsRange, hrange_pick-mem}
use awg2_webui.Transform.Computed.{IsComputed}
use awg2_webui.Transform.Layout.{
  write-read32, read32-write, length-write32, reseal_init, reseal_response, length-seal_init,
  length-seal_response, read32-seal_init, read32-seal_response, drop-padded, length-padded,
}
use awg2_webui.Transform.Outbound.{transform_outbound_with_mac1, or_key, padded}
use awg2_webui.Transform.Inbound.{transform_inbound}
use awg2_webui.Transform.Dispatch.{takes_init, takes_response, takes_cookie}

module _ (c : Config) (headroom pkt : List ℕ) (key : Option (List ℕ)) (rand_val : ℕ) where
  abbrev pub sent : List ℕ
  sent = (transform_outbound_with_mac1 headroom pkt c key rand_val).bytes

  abbrev out_key : Option (List ℕ)
  out_key = or_key key c.mac1key_out

  sent_init :
      length pkt ≡ 148
      → read32_le pkt ≡ 1
      → sent ≡ padded c.s1 rand_val (seal_init out_key (write32_le pkt (hrange_pick c.h1 rand_val)))
  unfolding transform_outbound_with_mac1
  sent_init l t = ground arith

  -- A 148-byte handshake initiation that goes out and comes in again is the packet that came from
  -- WireGuard, with its MAC1 made for the inbound key and MAC2 cleared where there is such a key. It is
  -- assumed that an end with no inbound key faces one with no outbound key, and that under the
  -- identity transform of data packets the padded packet does not happen to start like one.
  pub inbound-outbound_init :
      IsComputed c
      → IsRange c.h1
      → length pkt ≡ 148
      → read32_le pkt ≡ 1
      → (c.mac1key_in ≡ none → out_key ≡ none)
      → (c.h4_noop ≡ true → read32_le sent ≢ 4)
      → transform_inbound c sent ≡ some (seal_init c.mac1key_in pkt)
  inbound-outbound_init computed range l t keys other =
      takes_init c sent (omega (arith, total)) other (total ∙ sym computed.init_total_eq) hit
      ∙ ap (λ b. some (seal_init c.mac1key_in (write32_le b 1))) behind
      ∙ ap some (reseal_init c.mac1key_in out_key pkt h l t keys)
    where
      h : ℕ
      h = hrange_pick c.h1 rand_val

      w : List ℕ
      w = write32_le pkt h

      inner : List ℕ
      inner = seal_init out_key w

      e : length w ≡ 148
      e = length-write32 pkt h (omega arith) ∙ l

      total : length sent ≡ c.s1 + 148
      total =
          ap length (sent_init l t)
          ∙ length-padded c.s1 rand_val inner
          ∙ ap (λ n. c.s1 + n) (length-seal_init out_key w e)

      behind : drop c.s1 sent ≡ inner
      behind = ap (drop c.s1) (sent_init l t) ∙ drop-padded c.s1 rand_val inner

      hit : hrange_contains c.h1 (read32_le (drop c.s1 sent)) ≡ true
      hit =
          ap (λ b. hrange_contains c.h1 (read32_le b)) behind
          ∙ ap (hrange_contains c.h1) (
              read32-seal_init out_key w e
              ∙ read32-write pkt h ((hrange_pick-mem c.h1 rand_val range).1))
          ∙ (hrange_pick-mem c.h1 rand_val range).0

  -- A 92-byte handshake response that goes out and comes in again is the packet that came from
  -- WireGuard, with its MAC1 made for the inbound key and MAC2 cleared where there is such a key. It is
  -- assumed that an end with no inbound key faces one with no outbound key, that under the identity
  -- transform of data packets the padded packet does not happen to start like one, and that, where its
  -- length is an initiation's too, its padding does not happen to hold a member of the first range.
  pub inbound-outbound_response :
      IsComputed c
      → IsRange c.h2
      → length pkt ≡ 92
      → read32_le pkt ≡ 2
      → (c.mac1key_in ≡ none → out_key ≡ none)
      → (c.h4_noop ≡ true → read32_le sent ≢ 4)
      → (length sent ≡ c.init_total → hrange_contains c.h1 (read32_le (drop c.s1 sent)) ≡ false)
      → transform_inbound c sent ≡ some (seal_response c.mac1key_in pkt)
  inbound-outbound_response computed range l t keys other miss =
      takes_response c sent (omega (arith, total)) other miss (total ∙ sym computed.resp_total_eq)
        hit
      ∙ ap (λ b. some (seal_response c.mac1key_in (write32_le b 2))) behind
      ∙ ap some (reseal_response c.mac1key_in out_key pkt h l t keys)
    where
      seed : ℕ
      seed = bit_xor rand_val 0x12345

      h : ℕ
      h = hrange_pick c.h2 rand_val

      w : List ℕ
      w = write32_le pkt h

      inner : List ℕ
      inner = seal_response out_key w

      e : length w ≡ 92
      e = length-write32 pkt h (omega arith) ∙ l

      form : sent ≡ padded c.s2 seed inner
      form = unfold transform_outbound_with_mac1 in ground arith

      total : length sent ≡ c.s2 + 92
      total =
          ap length form
          ∙ length-padded c.s2 seed inner
          ∙ ap (λ n. c.s2 + n) (length-seal_response out_key w e)

      behind : drop c.s2 sent ≡ inner
      behind = ap (drop c.s2) form ∙ drop-padded c.s2 seed inner

      hit : hrange_contains c.h2 (read32_le (drop c.s2 sent)) ≡ true
      hit =
          ap (λ b. hrange_contains c.h2 (read32_le b)) behind
          ∙ ap (hrange_contains c.h2) (
              read32-seal_response out_key w e
              ∙ read32-write pkt h ((hrange_pick-mem c.h2 rand_val range).1))
          ∙ (hrange_pick-mem c.h2 rand_val range).0

  -- A 64-byte cookie reply comes in as it went out, unless its padding happens to hold the header of a
  -- data packet under their identity transform, or of a padded handshake that has its length.
  pub inbound-outbound_cookie :
      IsComputed c
      → IsRange c.h3
      → length pkt ≡ 64
      → read32_le pkt ≡ 3
      → (c.h4_noop ≡ true → read32_le sent ≢ 4)
      → (length sent ≡ c.init_total → hrange_contains c.h1 (read32_le (drop c.s1 sent)) ≡ false)
      → (length sent ≡ c.resp_total → hrange_contains c.h2 (read32_le (drop c.s2 sent)) ≡ false)
      → transform_inbound c sent ≡ some pkt
  inbound-outbound_cookie computed range l t other miss1 miss2 =
      takes_cookie c sent (omega (arith, total)) other miss1 miss2
        (total ∙ sym computed.cookie_total_eq) hit
      ∙ ap (λ b. some (write32_le b 3)) behind
      ∙ ap some (write-read32 pkt 3 (omega arith) (omega arith) t)
    where
      seed : ℕ
      seed = bit_xor rand_val 0x67890

      h : ℕ
      h = hrange_pick c.h3 rand_val

      w : List ℕ
      w = write32_le pkt h

      form : sent ≡ padded c.s3 seed w
      form = unfold transform_outbound_with_mac1 in ground arith

      total : length sent ≡ c.s3 + 64
      total =
          ap length form
          ∙ length-padded c.s3 seed w
          ∙ ap (λ n. c.s3 + n) (length-write32 pkt h (omega arith) ∙ l)

      behind : drop c.s3 sent ≡ w
      behind = ap (drop c.s3) form ∙ drop-padded c.s3 seed w

      hit : hrange_contains c.h3 (read32_le (drop c.s3 sent)) ≡ true
      hit =
          ap (λ b. hrange_contains c.h3 (read32_le b)) behind
          ∙ ap (hrange_contains c.h3) (read32-write pkt h ((hrange_pick-mem c.h3 rand_val range).1))
          ∙ (hrange_pick-mem c.h3 rand_val range).0
