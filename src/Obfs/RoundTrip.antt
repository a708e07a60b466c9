-- ===== src/Obfs/RoundTrip.antt =====
-- `obfs_unwrap` after `obfs_wrap` (src/obfs.c), for every profile.
use mathlib.Core.List.{append-nil, append_assoc}
use awg2_webui.Base.{
  ℕ, ◌+◌, ◌*◌, ◌%◌, ◌≡◌, refl, ap, ◌∙◌, ◌≢◌, sym, some, List, [], ◌++◌, bit_and, length,
  length-append, length-replicate, length-fill_from, u8, u64, low_bits, arith,
}
use awg2_webui.Obfs.{
  Profile, off, stun_ice, dtls_record, rtp_media, source_query, raknet, quic_short, game_enet,
  game_kcp, dns_like, Session, marker_extra_len, marker_write_if_needed,
}
use awg2_webui.Obfs.Wrap.{obfs_wrap, wrap_as}
use awg2_webui.Obfs.Unwrap.{obfs_unwrap, unwrap_as, deliver}
use awg2_webui.Obfs.Sent.{
  header_as, padding_as, IsFrame, length-marker, wrap_stun_ice-IsFrame, wrap_dtls_record-IsFrame,
  wrap_rtp_media-IsFrame, wrap_source_query-IsFrame, wrap_raknet-IsFrame, wrap_quic_short-IsFrame,
  wrap_game_enet-IsFrame, wrap_game_kcp-IsFrame, wrap_dns_like-IsFrame,
}
use awg2_webui.Obfs.Frame.{
  unwrap_rtp-header, unwrap_query-header, unwrap_raknet-header, unwrap_stun-header,
  unwrap_dtls-header, unwrap_kcp-header, unwrap_enet-header, unwrap_quic-header, unwrap_dns-header,
}

-- The padding that no length field of the frame tells apart from the payload.
abbrev pub unstripped : Profile → ℕ → List ℕ
unstripped stun_ice seq = padding_as stun_ice seq
unstripped dns_like seq = padding_as dns_like seq
unstripped _ seq = []

module _ (s r : Session) (input w : List ℕ) where
  abbrev marker : List ℕ
  marker = (marker_write_if_needed s).0

  abbrev Reads : Profile → Type 0
  Reads p =
      (wrap_as p s input).0 ≡ some w
      → unwrap_as p r w ≡ deliver r (marker ++ (input ++ unstripped p s.tx_seq))

  rtp_media-Reads : Reads rtp_media
  rtp_media-Reads e = rw ((wrap_rtp_media-IsFrame s input w e).0) (unwrap_rtp-header r _ _ _ _)

  source_query-Reads : Reads source_query
  source_query-Reads e = rw ((wrap_source_query-IsFrame s input w e).0) (unwrap_query-header r _ _)

  raknet-Reads : Reads raknet
  raknet-Reads e = rw ((wrap_raknet-IsFrame s input w e).0) (unwrap_raknet-header r _ _)

  dns_like-Reads : Reads dns_like
  dns_like-Reads e =
      rw ((wrap_dns_like-IsFrame s input w e).0)
        (unwrap_dns-header r _ _ _ (omega arith) (omega arith))

  stun_ice-Reads : Reads stun_ice
  stun_ice-Reads e =
      let f : IsFrame stun_ice s input w = wrap_stun_ice-IsFrame s input w e in
      rw (f.0) (
        unwrap_stun-header r _ _ _
          (omega (
            arith,
            length-append marker (input ++ padding_as stun_ice s.tx_seq),
            length-append input (padding_as stun_ice s.tx_seq),
            length-marker s,
            length-replicate {A = ℕ} (low_bits s.tx_seq 2) 0,
          ))
          (omega (arith, length-replicate {A = ℕ} (low_bits s.tx_seq 2) 0)))

  dtls_record-Reads : Reads dtls_record
  dtls_record-Reads e =
      let f : IsFrame dtls_record s input w = wrap_dtls_record-IsFrame s input w e in
      rw (f.0) (
        unwrap_dtls-header r _ _ _
          (omega
            (arith, length-append marker (input ++ []), length-append input [], length-marker s))
          (omega arith))

  -- The same frame, bracketed as the profiles with a length field read it.
  IsFrame-grouped :
      (p : Profile)
      → IsFrame p s input w
      → w ≡ header_as p s input ++ ((marker ++ input) ++ padding_as p s.tx_seq)
  IsFrame-grouped p f =
      f.0
      ∙ ap (λ t. header_as p s input ++ t) (sym (append_assoc marker input (padding_as p s.tx_seq)))

  no_padding :
      (p : Profile)
      → unstripped p s.tx_seq ≡ []
      → marker ++ input ≡ marker ++ (input ++ unstripped p s.tx_seq)
  no_padding p e = rw (e, append-nil)

  game_kcp-Reads : Reads game_kcp
  game_kcp-Reads e =
      let f : IsFrame game_kcp s input w = wrap_game_kcp-IsFrame s input w e in
      let l =
        length-fill_from 0 (s.tx_seq % 5) (λ i. u8 (0x55 + bit_and (u64 (s.tx_seq + i)) 0x33)) in
      rw (IsFrame-grouped game_kcp f) (
        unwrap_kcp-header r s.tx_seq (marker_extra_len s + length input + s.tx_seq % 5)
          (s.tx_seq % 5) (marker ++ input) (padding_as game_kcp s.tx_seq)
          (omega (arith, length-append marker input, length-marker s)) l (omega arith) (omega arith)
        ∙ ap (deliver r) (no_padding game_kcp refl))

  quic_short-Reads : Reads quic_short
  quic_short-Reads e = rw (IsFrame-grouped quic_short (wrap_quic_short-IsFrame s input w e)) (
      unwrap_quic-header r s.tx_seq (8 + s.tx_seq % 5) (1 + s.tx_seq % 4) (low_bits s.tx_seq 3)
        (marker ++ input) (padding_as quic_short s.tx_seq) (omega arith) (omega arith) (omega arith)
        (omega arith) (omega arith)
        (length-fill_from 0 (low_bits s.tx_seq 3) (λ i. u8 (0x90 + low_bits (s.tx_seq + i) 6)))
      ∙ ap (deliver r) (no_padding quic_short refl))

  game_enet-Reads : Reads game_enet
  game_enet-Reads e = rw (IsFrame-grouped game_enet (wrap_game_enet-IsFrame s input w e)) (
      unwrap_enet-header r s.tx_seq (1 + s.tx_seq % 3) (s.tx_seq % 6) (marker ++ input)
        (padding_as game_enet s.tx_seq) (omega arith) (omega arith) (omega arith)
        (length-fill_from 0 (s.tx_seq % 6) (λ i. u8 (0x30 + bit_and (u64 (s.tx_seq + i * 3)) 0x4f)))
      ∙ ap (deliver r) (no_padding game_enet refl))

  unwrap_as-wrap_as : (p : Profile) → p ≢ off → Reads p
  unwrap_as-wrap_as off h = absurd (h refl)
  unwrap_as-wrap_as stun_ice h = stun_ice-Reads
  unwrap_as-wrap_as dtls_record h = dtls_record-Reads
  unwrap_as-wrap_as rtp_media h = rtp_media-Reads
  unwrap_as-wrap_as source_query h = source_query-Reads
  unwrap_as-wrap_as raknet h = raknet-Reads
  unwrap_as-wrap_as quic_short h = quic_short-Reads
  unwrap_as-wrap_as game_enet h = game_enet-Reads
  unwrap_as-wrap_as game_kcp h = game_kcp-Reads
  unwrap_as-wrap_as dns_like h = dns_like-Reads

  -- For every profile but `off`: when `obfs_wrap` of a session sends `w` for a packet, a session of
  -- the same profile that unwraps `w` hands its marker step exactly the sender's marker (if one was
  -- due), the packet, and the zero padding of the STUN and DNS profiles, and nothing else.
  pub obfs_unwrap-obfs_wrap :
      r.profile ≡ s.profile
      → s.profile ≢ off
      → (obfs_wrap s input).0 ≡ some w
      → obfs_unwrap r w
        ≡ deliver r ((marker_write_if_needed s).0 ++ (input ++ unstripped s.profile s.tx_seq))
  unfolding obfs_wrap obfs_unwrap
  obfs_unwrap-obfs_wrap e h sent = ap (λ p. unwrap_as p r w) e ∙ unwrap_as-wrap_as s.profile h sent
