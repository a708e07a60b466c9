-- ===== src/Obfs/Sent.antt =====
-- What `obfs_wrap` of src/obfs.c sends, as one frame: header, marker, payload, padding.
use awg2_webui.Base.{
  ℕ, ◌+◌, ◌*◌, ◌%◌, ◌≤◌, ◌≡◌, some, List, [], ◌++◌, bit_and, bit_xor, length, zero, replicate,
  length-replicate, fill_from, length-fill_from, u8, u32, u64, low_bits, arith,
}
use awg2_webui.Obfs.{
  Profile, off, stun_ice, dtls_record, rtp_media, source_query, raknet, quic_short, game_enet,
  game_kcp, dns_like, Session, obfs_max_packet, marker_extra_len, marker_write_if_needed,
}
use awg2_webui.Obfs.Wrap.{
  stun_header, wrap_stun_ice, dtls_header, wrap_dtls_record, rtp_header, wrap_rtp_media,
  query_header, wrap_source_query, raknet_header, wrap_raknet, quic_header, wrap_quic_short,
  enet_header, wrap_game_enet, kcp_header, wrap_game_kcp, dns_header, wrap_dns_like,
}
use awg2_webui.Obfs.Frame.{length-enet_commands, length-quic_header, length-dns_header}

pub length-marker : (s : Session) → length (marker_write_if_needed s).0 ≡ marker_extra_len s
unfolding marker_write_if_needed marker_extra_len
length-marker s = ground arith

pub marker_extra_len-le : (s : Session) → marker_extra_len s ≤ 4
unfolding marker_extra_len
marker_extra_len-le s = ground arith

-- The header and the padding that a session puts round a packet of a profile.
abbrev pub header_as : Profile → Session → List ℕ → List ℕ
header_as off s input = []
header_as stun_ice s input =
    stun_header s.tx_seq (length input + low_bits s.tx_seq 2 + marker_extra_len s)
header_as dtls_record s input =
    dtls_header (low_bits s.tx_seq 48) (marker_extra_len s + length input)
header_as rtp_media s input = rtp_header (low_bits s.tx_seq 16) (u32 (s.ts + 3000)) s.ssrc
header_as source_query s input = query_header s.tx_seq
header_as raknet s input = raknet_header (bit_xor s.tx_seq 0xa5a5a5a55a5a5a5a)
header_as quic_short s input =
    quic_header s.tx_seq (8 + s.tx_seq % 5) (1 + s.tx_seq % 4) (low_bits s.tx_seq 3)
header_as game_enet s input = enet_header s.tx_seq (1 + s.tx_seq % 3) (s.tx_seq % 6)
header_as game_kcp s input =
    kcp_header s.tx_seq (marker_extra_len s + length input + s.tx_seq % 5) (s.tx_seq % 5)
header_as dns_like s input = dns_header s.tx_seq (6 + s.tx_seq % 6)

abbrev pub padding_as : Profile → ℕ → List ℕ
padding_as stun_ice seq = replicate (low_bits seq 2) 0
padding_as quic_short seq = fill_from 0 (low_bits seq 3) (λ i. u8 (0x90 + low_bits (seq + i) 6))
padding_as game_enet seq = fill_from 0 (seq % 6) (λ i. u8 (0x30 + bit_and (u64 (seq + i * 3)) 0x4f))
padding_as game_kcp seq = fill_from 0 (seq % 5) (λ i. u8 (0x55 + bit_and (u64 (seq + i)) 0x33))
padding_as dns_like seq = replicate (seq % 4) 0
padding_as _ seq = []

-- A wire packet is header, marker, payload and padding, and fits the buffer.
abbrev pub IsFrame : Profile → Session → List ℕ → List ℕ → Type 0
IsFrame p s input w =
    (w ≡ header_as p s input ++ ((marker_write_if_needed s).0 ++ (input ++ padding_as p s.tx_seq)))
    × (length (header_as p s input)
          + marker_extra_len s
          + length input
          + length (padding_as p s.tx_seq)
        ≤ obfs_max_packet)

module _ (s : Session) (input w : List ℕ) where
  pub wrap_stun_ice-IsFrame : (wrap_stun_ice s input).0 ≡ some w → IsFrame stun_ice s input w
  unfolding wrap_stun_ice marker_write_if_needed
  wrap_stun_ice-IsFrame e = ground (arith, length-replicate (low_bits s.tx_seq 2) zero)

  pub wrap_dtls_record-IsFrame :
      (wrap_dtls_record s input).0 ≡ some w → IsFrame dtls_record s input w
  unfolding wrap_dtls_record marker_write_if_needed
  wrap_dtls_record-IsFrame e = ground (arith)

  pub wrap_rtp_media-IsFrame : (wrap_rtp_media s input).0 ≡ some w → IsFrame rtp_media s input w
  unfolding wrap_rtp_media marker_write_if_needed
  wrap_rtp_media-IsFrame e = ground (arith)

  pub wrap_source_query-IsFrame :
      (wrap_source_query s input).0 ≡ some w → IsFrame source_query s input w
  unfolding wrap_source_query marker_write_if_needed
  wrap_source_query-IsFrame e = ground (arith)

  pub wrap_raknet-IsFrame : (wrap_raknet s input).0 ≡ some w → IsFrame raknet s input w
  unfolding wrap_raknet marker_write_if_needed
  wrap_raknet-IsFrame e = ground (arith)

  pub wrap_quic_short-IsFrame : (wrap_quic_short s input).0 ≡ some w → IsFrame quic_short s input w
  unfolding wrap_quic_short marker_write_if_needed
  wrap_quic_short-IsFrame e = ground (
    arith,
    length-quic_header s.tx_seq (8 + s.tx_seq % 5) (1 + s.tx_seq % 4) (low_bits s.tx_seq 3),
    length-fill_from 0 (low_bits s.tx_seq 3) (λ i. u8 (0x90 + low_bits (s.tx_seq + i) 6)),
  )

  pub wrap_game_enet-IsFrame : (wrap_game_enet s input).0 ≡ some w → IsFrame game_enet s input w
  unfolding wrap_game_enet marker_write_if_needed
  wrap_game_enet-IsFrame e = ground (
    arith,
    length-enet_commands s.tx_seq 0 (1 + s.tx_seq % 3),
    length-fill_from 0 (s.tx_seq % 6) (λ i. u8 (0x30 + bit_and (u64 (s.tx_seq + i * 3)) 0x4f)),
  )

  pub wrap_game_kcp-IsFrame : (wrap_game_kcp s input).0 ≡ some w → IsFrame game_kcp s input w
  unfolding wrap_game_kcp marker_write_if_needed
  wrap_game_kcp-IsFrame e = ground (
    arith,
    length-fill_from 0 (s.tx_seq % 5) (λ i. u8 (0x55 + bit_and (u64 (s.tx_seq + i)) 0x33)),
  )

  pub wrap_dns_like-IsFrame : (wrap_dns_like s input).0 ≡ some w → IsFrame dns_like s input w
  unfolding wrap_dns_like marker_write_if_needed
  wrap_dns_like-IsFrame e =
      ground
        (arith, length-dns_header s.tx_seq (6 + s.tx_seq % 6), length-replicate (s.tx_seq % 4) zero)
