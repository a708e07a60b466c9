-- ===== src/Obfs/Overhead.antt =====
-- `obfs_profile_overhead_max` of src/obfs.c, against what `obfs_wrap` really adds.
use awg2_webui.Base.{
  ℕ, ◌+◌, ◌%◌, ◌≤◌, ◌<◌, ◌≡◌, ◌≢◌, ◌↔◌, ◌∙◌, ap, refl, List, ◌++◌, some, length, arith,
  length-append, length-replicate, length-fill_from, zero, u8, u64, low_bits, bit_and, ◌*◌,
}
use awg2_webui.Obfs.{
  Profile, off, stun_ice, dtls_record, rtp_media, source_query, raknet, quic_short, game_enet,
  game_kcp, dns_like, Session, marker_extra_len, marker_write_if_needed,
}
use awg2_webui.Obfs.Wrap.{obfs_wrap}
use awg2_webui.Obfs.Frame.{length-enet_commands, length-quic_header, length-dns_header}
use awg2_webui.Obfs.Sent.{header_as, padding_as, length-marker, marker_extra_len-le}
use awg2_webui.Obfs.Send.{frame_length, frame_bytes, obfs_wrap-some}

unfoldable pub obfs_profile_overhead_max : Profile → ℕ
obfs_profile_overhead_max stun_ice = 28
obfs_profile_overhead_max dtls_record = 17
obfs_profile_overhead_max rtp_media = 16
obfs_profile_overhead_max source_query = 10
obfs_profile_overhead_max raknet = 13
obfs_profile_overhead_max quic_short = 31
obfs_profile_overhead_max game_enet = 27
obfs_profile_overhead_max game_kcp = 32
obfs_profile_overhead_max dns_like = 34
obfs_profile_overhead_max off = 0

overhead_as :
    (p : Profile) (s : Session) (input : List ℕ)
    → p ≢ off
    → p ≢ dns_like
    → frame_length p s input ≤ length input + obfs_profile_overhead_max p
unfolding obfs_profile_overhead_max
overhead_as off s input h k = absurd (h refl)
overhead_as stun_ice s input h k =
    omega (arith, marker_extra_len-le s, length-replicate (low_bits s.tx_seq 2) zero)
overhead_as quic_short s input h k = omega (
  arith,
  marker_extra_len-le s,
  length-quic_header s.tx_seq (8 + s.tx_seq % 5) (1 + s.tx_seq % 4) (low_bits s.tx_seq 3),
  length-fill_from 0 (low_bits s.tx_seq 3) (λ i. u8 (0x90 + low_bits (s.tx_seq + i) 6)),
)
overhead_as game_enet s input h k = omega (
  arith,
  marker_extra_len-le s,
  length-enet_commands s.tx_seq 0 (1 + s.tx_seq % 3),
  length-fill_from 0 (s.tx_seq % 6) (λ i. u8 (0x30 + bit_and (u64 (s.tx_seq + i * 3)) 0x4f)),
)
overhead_as game_kcp s input h k = omega (
  arith,
  marker_extra_len-le s,
  length-fill_from 0 (s.tx_seq % 5) (λ i. u8 (0x55 + bit_and (u64 (s.tx_seq + i)) 0x33)),
)
overhead_as dns_like s input h k = absurd (k refl)
overhead_as _ s input h k = omega (arith, marker_extra_len-le s)

length-frame_bytes :
    (p : Profile) (s : Session) (input : List ℕ)
    → length (frame_bytes p s input) ≡ frame_length p s input
length-frame_bytes p s input = omega (
  arith,
  length-append (header_as p s input)
      ((marker_write_if_needed s).0 ++ (input ++ padding_as p s.tx_seq)),
  length-append (marker_write_if_needed s).0 (input ++ padding_as p s.tx_seq),
  length-append input (padding_as p s.tx_seq),
  length-marker s,
)

-- Under every profile but `off` and `dns_like`, what `obfs_wrap` sends is longer than the packet by
-- at most `obfs_profile_overhead_max`.
pub obfs_wrap_overhead :
    (s : Session) (input w : List ℕ)
    → s.profile ≢ off
    → s.profile ≢ dns_like
    → (obfs_wrap s input).0 ≡ some w
    → length w ≤ length input + obfs_profile_overhead_max s.profile
obfs_wrap_overhead s input w h k e =
    rw ((obfs_wrap-some s input w h e).0)
      (omega (arith, length-frame_bytes s.profile s input, overhead_as s.profile s input h k))

length-dns_frame :
    (s : Session) (input : List ℕ)
    → frame_length dns_like s input
      ≡ length input + (28 + s.tx_seq % 6 + marker_extra_len s + s.tx_seq % 4)
length-dns_frame s input =
    omega
      (arith, length-dns_header s.tx_seq (6 + s.tx_seq % 6), length-replicate (s.tx_seq % 4) zero)

-- A `dns_like` session adds 28 + seq % 6 bytes, the marker and seq % 4 bytes, so it adds more than
-- `obfs_profile_overhead_max` says, exactly when the last three parts make up more than six.
pub obfs_wrap_dns_overhead :
    (s : Session) (input w : List ℕ)
    → s.profile ≡ dns_like
    → (obfs_wrap s input).0 ≡ some w
    → (length w ≡ length input + (28 + s.tx_seq % 6 + marker_extra_len s + s.tx_seq % 4))
      × ((length input + obfs_profile_overhead_max dns_like < length w)
          ↔ (6 < s.tx_seq % 6 + marker_extra_len s + s.tx_seq % 4))
unfolding obfs_profile_overhead_max
obfs_wrap_dns_overhead s input w d e =
    (exact, (λ h. omega (arith, exact), λ h. omega (arith, exact)))
  where
    not_off : s.profile ≢ off
    not_off h = cc

    exact : length w ≡ length input + (28 + s.tx_seq % 6 + marker_extra_len s + s.tx_seq % 4)
    exact =
        ap length ((obfs_wrap-some s input w not_off e).0)
        ∙ length-frame_bytes s.profile s input
        ∙ ap (λ p. frame_length p s input) d
        ∙ length-dns_frame s input

-- No profile adds more than 40 bytes.
pub frame_length-le :
    (p : Profile) (s : Session) (input : List ℕ)
    → p ≢ off
    → frame_length p s input ≤ length input + 40
unfolding obfs_profile_overhead_max
frame_length-le off s input h = absurd (h refl)
frame_length-le stun_ice s input h = omega (arith, overhead_as stun_ice s input h (λ e. cc))
frame_length-le dtls_record s input h = omega (arith, overhead_as dtls_record s input h (λ e. cc))
frame_length-le rtp_media s input h = omega (arith, overhead_as rtp_media s input h (λ e. cc))
frame_length-le source_query s input h = omega (arith, overhead_as source_query s input h (λ e. cc))
frame_length-le raknet s input h = omega (arith, overhead_as raknet s input h (λ e. cc))
frame_length-le quic_short s input h = omega (arith, overhead_as quic_short s input h (λ e. cc))
frame_length-le game_enet s input h = omega (arith, overhead_as game_enet s input h (λ e. cc))
frame_length-le game_kcp s input h = omega (arith, overhead_as game_kcp s input h (λ e. cc))
frame_length-le dns_like s input h = omega (arith, length-dns_frame s input, marker_extra_len-le s)
