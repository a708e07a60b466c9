-- ===== src/Obfs/Send.antt =====
-- When `obfs_wrap` of src/obfs.c sends, what it sends, and the session that it leaves.
use awg2_webui.Base.{
  ℕ, ◌+◌, ◌-◌, ◌*◌, ◌%◌, ◌≤◌, ◌<◌, ◌≡◌, ◌≢◌, ap, refl, some, none, List, ◌++◌, bit_and, length,
  zero, length-replicate, length-fill_from, u8, u32, u64, low_bits, arith,
}
use native.Mathlib.Decide.{dec_lt}
use awg2_webui.Obfs.{
  Profile, off, stun_ice, dtls_record, rtp_media, source_query, raknet, quic_short, game_enet,
  game_kcp, dns_like, Session, obfs_max_packet, marker_extra_len, marker_write_if_needed,
}
use awg2_webui.Obfs.Wrap.{
  wrap_stun_ice, wrap_dtls_record, wrap_rtp_media, wrap_source_query, wrap_raknet, wrap_quic_short,
  wrap_game_enet, wrap_game_kcp, wrap_dns_like, wrap_as, obfs_wrap,
}
use awg2_webui.Obfs.Frame.{length-enet_commands, length-quic_header, length-dns_header}
use awg2_webui.Obfs.Sent.{header_as, padding_as}

abbrev pub frame_length : Profile → Session → List ℕ → ℕ
frame_length p s input =
    length (header_as p s input)
    + marker_extra_len s
    + length input
    + length (padding_as p s.tx_seq)

abbrev pub frame_bytes : Profile → Session → List ℕ → List ℕ
frame_bytes p s input =
    header_as p s input ++ ((marker_write_if_needed s).0 ++ (input ++ padding_as p s.tx_seq))

-- The `ts` of a session after a packet: only the RTP profile moves it.
abbrev pub next_ts : Profile → ℕ → ℕ
next_ts rtp_media ts = u32 (ts + 3000)
next_ts _ ts = ts

-- The session after a packet was sent.
abbrev pub advanced : Profile → Session → Session
advanced p s = record s {
  tx_seq = u64 (s.tx_seq + 1);
  ts = next_ts p s.ts;
  marker_tx_left = s.marker_tx_left - 1;
}

abbrev Sends : Profile → Session → List ℕ → Type 0
Sends p s input =
    (frame_length p s input ≤ obfs_max_packet
      → wrap_as p s input ≡ (some (frame_bytes p s input), advanced p s))
    × (obfs_max_packet < frame_length p s input → wrap_as p s input ≡ (none, s))

module _ (s : Session) (input : List ℕ) where
  stun_ice-Sends : Sends stun_ice s input
  unfolding wrap_stun_ice marker_write_if_needed
  stun_ice-Sends = (
    λ h. ground (arith, length-replicate (low_bits s.tx_seq 2) zero),
    λ h. ground (arith, length-replicate (low_bits s.tx_seq 2) zero),
  )

  dtls_record-Sends : Sends dtls_record s input
  unfolding wrap_dtls_record marker_write_if_needed
  dtls_record-Sends = (λ h. ground (arith), λ h. ground (arith))

  rtp_media-Sends : Sends rtp_media s input
  unfolding wrap_rtp_media marker_write_if_needed
  rtp_media-Sends = (λ h. ground (arith), λ h. ground (arith))

  source_query-Sends : Sends source_query s input
  unfolding wrap_source_query marker_write_if_needed
  source_query-Sends = (λ h. ground (arith), λ h. ground (arith))

  raknet-Sends : Sends raknet s input
  unfolding wrap_raknet marker_write_if_needed
  raknet-Sends = (λ h. ground (arith), λ h. ground (arith))

  quic_short-Sends : Sends quic_short s input
  unfolding wrap_quic_short marker_write_if_needed
  quic_short-Sends = (
    λ h. ground (
      arith,
      length-quic_header s.tx_seq (8 + s.tx_seq % 5) (1 + s.tx_seq % 4) (low_bits s.tx_seq 3),
      length-fill_from 0 (low_bits s.tx_seq 3) (λ i. u8 (0x90 + low_bits (s.tx_seq + i) 6)),
    ),
    λ h. ground (
      arith,
      length-quic_header s.tx_seq (8 + s.tx_seq % 5) (1 + s.tx_seq % 4) (low_bits s.tx_seq 3),
      length-fill_from 0 (low_bits s.tx_seq 3) (λ i. u8 (0x90 + low_bits (s.tx_seq + i) 6)),
    ),
  )

  game_enet-Sends : Sends game_enet s input
  unfolding wrap_game_enet marker_write_if_needed
  game_enet-Sends = (
    λ h. ground (
      arith,
      length-enet_commands s.tx_seq 0 (1 + s.tx_seq % 3),
      length-fill_from 0 (s.tx_seq % 6) (λ i. u8 (0x30 + bit_and (u64 (s.tx_seq + i * 3)) 0x4f)),
    ),
    λ h. ground (
      arith,
      length-enet_commands s.tx_seq 0 (1 + s.tx_seq % 3),
      length-fill_from 0 (s.tx_seq % 6) (λ i. u8 (0x30 + bit_and (u64 (s.tx_seq + i * 3)) 0x4f)),
    ),
  )

  game_kcp-Sends : Sends game_kcp s input
  unfolding wrap_game_kcp marker_write_if_needed
  game_kcp-Sends = (
    λ h. ground (
      arith,
      length-fill_from 0 (s.tx_seq % 5) (λ i. u8 (0x55 + bit_and (u64 (s.tx_seq + i)) 0x33)),
    ),
    λ h. ground (
      arith,
      length-fill_from 0 (s.tx_seq % 5) (λ i. u8 (0x55 + bit_and (u64 (s.tx_seq + i)) 0x33)),
    ),
  )

  dns_like-Sends : Sends dns_like s input
  unfolding wrap_dns_like marker_write_if_needed
  dns_like-Sends = (
    λ h. ground (
      arith,
      length-dns_header s.tx_seq (6 + s.tx_seq % 6),
      length-replicate (s.tx_seq % 4) zero,
    ),
    λ h. ground (
      arith,
      length-dns_header s.tx_seq (6 + s.tx_seq % 6),
      length-replicate (s.tx_seq % 4) zero,
    ),
  )

  Sends-as : (p : Profile) → p ≢ off → Sends p s input
  Sends-as off h = absurd (h refl)
  Sends-as stun_ice h = stun_ice-Sends
  Sends-as dtls_record h = dtls_record-Sends
  Sends-as rtp_media h = rtp_media-Sends
  Sends-as source_query h = source_query-Sends
  Sends-as raknet h = raknet-Sends
  Sends-as quic_short h = quic_short-Sends
  Sends-as game_enet h = game_enet-Sends
  Sends-as game_kcp h = game_kcp-Sends
  Sends-as dns_like h = dns_like-Sends

  -- Under every profile but `off`, `obfs_wrap` sends exactly when header, marker, packet and padding
  -- fit the 4096-byte buffer: then it sends those four in that order, counts the packet in `tx_seq`
  -- and one marker off; otherwise it sends nothing and leaves the session as it was.
  pub obfs_wrap_lem :
      s.profile ≢ off
      → (frame_length s.profile s input ≤ obfs_max_packet
          → obfs_wrap s input ≡ (some (frame_bytes s.profile s input), advanced s.profile s))
        × (obfs_max_packet < frame_length s.profile s input → obfs_wrap s input ≡ (none, s))
  unfolding obfs_wrap
  obfs_wrap_lem h = Sends-as s.profile h

  frame_bytes_fit :
      s.profile ≢ off
      → {w : List ℕ} → (obfs_wrap s input).0 ≡ some w
      → frame_length s.profile s input ≤ obfs_max_packet
  frame_bytes_fit h {w} e = elim (dec_lt obfs_max_packet (frame_length s.profile s input)) [
    | yes p ↦ cc (ap (λ x. x.0) ((obfs_wrap_lem h).1 p))
    | no p ↦ omega arith
  ]

  pub obfs_wrap-some :
      (w : List ℕ)
      → s.profile ≢ off
      → (obfs_wrap s input).0 ≡ some w
      → (w ≡ frame_bytes s.profile s input) × ((obfs_wrap s input).1 ≡ advanced s.profile s)
  obfs_wrap-some w h e =
      let all = (obfs_wrap_lem h).0 (frame_bytes_fit h e) in
      (cc (ap (λ x. x.0) all), ap (λ x. x.1) all)
