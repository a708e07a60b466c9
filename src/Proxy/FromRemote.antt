-- ===== src/Proxy/FromRemote.antt =====
-- src/proxy_s2c_client.c: from the remote AmneziaWG end to the WireGuard client.
use awg2_webui.Base.{
  ℕ, ◌+◌, ◌≤◌, ◌<◌, ◌≡◌, ◌≢◌, refl, ap, sym, ◌∙◌, Bool, true, false, not, ◌&&◌, ◌||◌, Option, some,
  none, List, leb, ◌==◌, if◌then◌else◌, length, drop, u32, arith, Bool-cases, inl, inr,
}
use awg2_webui.Obfs.Unwrap.{obfs_unwrap}
use awg2_webui.Transform.{
  Config, hrange_contains, read32_le, write32_le, wg_transport_data, wg_transport_min,
}
use awg2_webui.Transform.Inbound.{transform_inbound}
use awg2_webui.Transform.Computed.{IsComputed}
use awg2_webui.Transform.Dispatch.{takes_transport}
use awg2_webui.Transform.Layout.{write-read32}
use awg2_webui.Proxy.{Setup, ProxyState, to, own, Thread, push}

-- The length tells a data packet from a padded handshake or cookie reply.
abbrev pub is_data_size : Config → ℕ → Bool
is_data_size c n =
    leb (c.s4 + wg_transport_min) n
    && (not c.transport_size_ambiguous
        || (not (n == c.init_total) && (not (n == c.resp_total) && not (n == c.cookie_total))))

-- The fast path for data packets, which both inbound directions have.
unfoldable pub inbound_data : Config → List ℕ → Option (List ℕ)
unfolding hrange_contains
inbound_data c pkt =
    if is_data_size c (length pkt) && hrange_contains c.h4 (read32_le (drop c.s4 pkt))
    then some (write32_le (drop c.s4 pkt) wg_transport_data)
    else none

-- The first result, else the second.
abbrev pub or_else : Option (List ℕ) → Option (List ℕ) → Option (List ℕ)
or_else (some x) slow = some x
or_else none slow = slow

-- What an unwrapped packet is for the client: through the fast path, else through the transform.
unfoldable pub inbound_bytes : Config → List ℕ → Option (List ℕ)
unfolding inbound_data transform_inbound
inbound_bytes c pkt = or_else (inbound_data c pkt) (transform_inbound c pkt)

-- What was unwrapped joins the batch for the client.
unfoldable pub push_client : ProxyState → Thread → Option (List ℕ) → Thread
push_client p t none = t
push_client p t (some out) = push t (to p.client_addr p.client_addr_len) (own out)

-- `proxy_s2c_process_client`. A packet that the disguise refuses is counted.
unfoldable pub proxy_s2c_process_client : Setup → ProxyState → Thread → List ℕ → ProxyState × Thread
unfolding obfs_unwrap inbound_bytes push_client
proxy_s2c_process_client cfg p t pkt =
    let (unwrapped, session) = obfs_unwrap p.obfs_s2c pkt in
    let next = record p { obfs_s2c = session } in
    elim unwrapped [
      | none ↦ (record next { obfs_fail_s2c = u32 (p.obfs_fail_s2c + 1) }, t)
      | some body ↦ (next, push_client next t (inbound_bytes cfg.awg body))
    ]

-- A data packet under the identity transform passes as it is.
noop_passes :
    (c : Config) (pkt : List ℕ)
    → c.h4_noop ≡ true
    → 32 ≤ length pkt
    → read32_le pkt ≡ 4
    → transform_inbound c pkt ≡ some pkt
unfolding transform_inbound
noop_passes c pkt noop long word = ground arith

within : (c : Config) (v : ℕ) → c.h4.min ≡ 4 → c.h4.max ≡ 4 → hrange_contains c.h4 v ≡ true → v ≡ 4
unfolding hrange_contains
within c v lo hi h = ground arith

size_facts :
    (c : Config) (n : ℕ)
    → IsComputed c
    → is_data_size c n ≡ true
    → (c.s4 + 32 ≤ n) × (n ≢ c.init_total) × (n ≢ c.resp_total) × (n ≢ c.cookie_total)
size_facts c n computed h = elim (Bool-cases c.transport_size_ambiguous) [
  | inl a ↦ ground (arith, a)
  | inr a ↦
      let i : c.init_total < c.s4 + 32 = computed.init_apart a in
      let r : c.resp_total < c.s4 + 32 = computed.resp_apart a in
      let k : c.cookie_total < c.s4 + 32 = computed.cookie_apart a in
      let long : c.s4 + 32 ≤ n = ground (arith, a) in
      (long, omega (arith, i, long), omega (arith, r, long), omega (arith, k, long))
]

-- What the fast path takes, the transform would have taken, with the same result.
inbound_data-transform :
    (c : Config) (pkt : List ℕ)
    → IsComputed c
    → is_data_size c (length pkt) ≡ true
    → hrange_contains c.h4 (read32_le (drop c.s4 pkt)) ≡ true
    → transform_inbound c pkt ≡ some (write32_le (drop c.s4 pkt) wg_transport_data)
inbound_data-transform c pkt computed size member =
    let (long, i, r, k) = size_facts c (length pkt) computed size in
    elim (Bool-cases c.h4_noop) [
      | inl noop ↦
          let front : drop c.s4 pkt ≡ pkt = ap (λ n. drop n pkt) (computed.noop_size noop) in
          let word : read32_le pkt ≡ 4 =
            sym (ap read32_le front)
            ∙ within c (read32_le (drop c.s4 pkt)) (computed.noop_min noop) (computed.noop_max noop)
                member in
          noop_passes c pkt noop (omega (arith, long)) word
          ∙ ap some (sym (write-read32 pkt 4 (omega arith) (omega (arith, long)) word))
          ∙ ap (λ b. some (write32_le b 4)) (sym front)
      | inr on ↦
          takes_transport c pkt (omega (arith, long)) (λ h. cc) (λ e. absurd (i e))
            (λ e. absurd (r e)) (λ e. absurd (k e)) long member
    ]

fast_or_slow :
    (size member : Bool) (x : List ℕ) (slow : Option (List ℕ))
    → (size ≡ true → member ≡ true → slow ≡ some x)
    → or_else (if size && member then some x else none) slow ≡ slow
fast_or_slow true true x slow h = sym (h refl refl)
fast_or_slow true false x slow h = refl
fast_or_slow false member x slow h = refl

-- The fast path is only a shorter way: whatever arrives, what `inbound_bytes` makes of it is what
-- `transform_inbound` makes of it, under a computed configuration.
pub inbound_bytes-transform :
    (c : Config) (pkt : List ℕ) → IsComputed c → inbound_bytes c pkt ≡ transform_inbound c pkt
unfolding inbound_bytes inbound_data
inbound_bytes-transform c pkt computed =
    fast_or_slow (is_data_size c (length pkt)) (hrange_contains c.h4 (read32_le (drop c.s4 pkt)))
      (write32_le (drop c.s4 pkt) wg_transport_data) (transform_inbound c pkt)
      (inbound_data-transform c pkt computed)
