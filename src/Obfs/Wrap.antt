-- ===== src/Obfs/Wrap.antt =====
-- `obfs_wrap` of src/obfs.c: one function for each profile's branch. A branch that fills
-- `obfs_buf[0..total)` from left to right is the list of those bytes, in that order. Bytes of a
-- 64-bit sum are taken modulo 2^8, so the wrap of the sum itself cannot be seen.
use awg2_webui.Base.{
  ℕ, zero, suc, ◌+◌, ◌-◌, ◌*◌, ◌%◌, ◌^◌, Option, none, some, List, [], ◌∷◌, ◌++◌, ◌||◌, bit_and,
  bit_or, bit_xor, ltb, if◌then◌else◌, length, replicate, fill_from, get_or, u8, u16, u32, u64, shr,
  low_bits, be16, be32,
}
use awg2_webui.Obfs.{
  Profile, off, stun_ice, dtls_record, rtp_media, source_query, raknet, quic_short, game_enet,
  game_kcp, dns_like, Session, obfs_max_packet, marker_extra_len, marker_write_if_needed,
}

-- What the branches share: the marker if one is due, the payload, the padding, `tx_seq++`.
unfoldable pub emit : Session → List ℕ → List ℕ → List ℕ → Option (List ℕ) × Session
unfolding marker_write_if_needed
emit s header input tail =
    let (marker, s') = marker_write_if_needed s in
    (some (header ++ (marker ++ (input ++ tail))), record s' { tx_seq = u64 (s'.tx_seq + 1) })

-- A STUN binding request: type, length, cookie, transaction id.
abbrev pub stun_header : ℕ → ℕ → List ℕ
stun_header seq body_len =
    be16 0x0001
    ++ (be16 (u16 body_len)
        ++ (0x21 ∷ 0x12 ∷ 0xa4 ∷ 0x42 ∷ fill_from 0 12 (λ i. u8 (shr seq (i % 8 * 8) + i * 17))))

unfoldable pub wrap_stun_ice : Session → List ℕ → Option (List ℕ) × Session
unfolding marker_extra_len emit
wrap_stun_ice s input =
    let pad = low_bits s.tx_seq 2 in
    let body_len = length input + pad + marker_extra_len s in
    if ltb obfs_max_packet (20 + body_len)
    then (none, s)
    else emit s (stun_header s.tx_seq body_len) input (replicate pad 0)

abbrev pub dtls_header : ℕ → ℕ → List ℕ
dtls_header seq len =
    23
    ∷ 0xfe
    ∷ 0xfd
    ∷ 0
    ∷ 0
    ∷ u8 (shr seq 40)
    ∷ u8 (shr seq 32)
    ∷ u8 (shr seq 24)
    ∷ u8 (shr seq 16)
    ∷ u8 (shr seq 8)
    ∷ u8 seq
    ∷ be16 (u16 len)

unfoldable pub wrap_dtls_record : Session → List ℕ → Option (List ℕ) × Session
unfolding marker_extra_len emit
wrap_dtls_record s input =
    let mx = marker_extra_len s in
    if ltb obfs_max_packet (13 + mx + length input) || ltb 0xffff (length input)
    then (none, s)
    else emit s (dtls_header (low_bits s.tx_seq 48) (mx + length input)) input []

abbrev pub rtp_header : ℕ → ℕ → ℕ → List ℕ
rtp_header seq ts ssrc = 0x80 ∷ 96 ∷ u8 (shr seq 8) ∷ u8 seq ∷ (be32 ts ++ be32 ssrc)

unfoldable pub wrap_rtp_media : Session → List ℕ → Option (List ℕ) × Session
unfolding marker_extra_len emit
wrap_rtp_media s input =
    if ltb obfs_max_packet (12 + marker_extra_len s + length input)
    then (none, s)
    else let ts' = u32 (s.ts + 3000) in
      emit (record s { ts = ts' }) (rtp_header (low_bits s.tx_seq 16) ts' s.ssrc) input []

abbrev pub query_header : ℕ → List ℕ
query_header seq = 0xff ∷ 0xff ∷ 0xff ∷ 0xff ∷ u8 (0x40 + low_bits seq 4) ∷ u8 (low_bits seq 8) ∷ []

unfoldable pub wrap_source_query : Session → List ℕ → Option (List ℕ) × Session
unfolding marker_extra_len emit
wrap_source_query s input =
    if ltb obfs_max_packet (6 + marker_extra_len s + length input)
    then (none, s)
    else emit s (query_header s.tx_seq) input []

abbrev pub raknet_header : ℕ → List ℕ
raknet_header nonce = 0x84 ∷ fill_from 0 8 (λ i. u8 (shr nonce ((7 - i) * 8)))

unfoldable pub wrap_raknet : Session → List ℕ → Option (List ℕ) × Session
unfolding marker_extra_len emit
wrap_raknet s input =
    if ltb obfs_max_packet (1 + 8 + marker_extra_len s + length input)
    then (none, s)
    else emit s (raknet_header (bit_xor s.tx_seq 0xa5a5a5a55a5a5a5a)) input []

abbrev pub quic_header : ℕ → ℕ → ℕ → ℕ → List ℕ
quic_header seq dcid_len pn_len pad_len =
    u8 (bit_or 0x40 (low_bits (shr seq 3) 6))
    ∷ u8 dcid_len
    ∷ u8 pn_len
    ∷ u8 pad_len
    ∷ (fill_from 0 dcid_len (λ i. u8 (shr seq (i % 8 * 8) + i * 29))
        ++ fill_from 0 pn_len (λ i. u8 (shr seq ((pn_len - i - 1) * 8))))

unfoldable pub wrap_quic_short : Session → List ℕ → Option (List ℕ) × Session
unfolding marker_extra_len emit
wrap_quic_short s input =
    let dcid_len = 8 + s.tx_seq % 5 in
    let pn_len = 1 + s.tx_seq % 4 in
    let pad_len = low_bits s.tx_seq 3 in
    let hdr_len = 4 + dcid_len + pn_len in
    if ltb obfs_max_packet (hdr_len + marker_extra_len s + length input + pad_len)
    then (none, s)
    else emit s (quic_header s.tx_seq dcid_len pn_len pad_len) input
        (fill_from 0 pad_len (λ i. u8 (0x90 + low_bits (s.tx_seq + i) 6)))

abbrev pub cmd_ids : List ℕ
cmd_ids = 0x01 ∷ 0x06 ∷ 0x07 ∷ 0x08 ∷ []

-- The loop over `cmd_count` commands of four bytes, from command `i` on.
abbrev pub enet_commands : ℕ → ℕ → ℕ → List ℕ
enet_commands seq i zero = []
enet_commands seq i (suc n) =
    get_or cmd_ids (low_bits (seq + i) 2) 0
    ∷ u8 (low_bits (seq + i) 2)
    ∷ u8 (shr (u64 (seq + i)) 8)
    ∷ u8 (seq + i)
    ∷ enet_commands seq (i + 1) n

abbrev pub enet_header : ℕ → ℕ → ℕ → List ℕ
enet_header seq cmd_count pad_len =
    let peer_id = u16 (bit_or 0x8000 (low_bits seq 12)) in
    let sent_time = u16 (low_bits (u64 (seq * 7)) 16) in
    u8 (shr peer_id 8)
    ∷ u8 peer_id
    ∷ u8 (shr sent_time 8)
    ∷ u8 sent_time
    ∷ u8 cmd_count
    ∷ u8 pad_len
    ∷ enet_commands seq 0 cmd_count

unfoldable pub wrap_game_enet : Session → List ℕ → Option (List ℕ) × Session
unfolding marker_extra_len emit
wrap_game_enet s input =
    let cmd_count = 1 + s.tx_seq % 3 in
    let pad_len = s.tx_seq % 6 in
    let hdr_len = 6 + cmd_count * 4 in
    if ltb obfs_max_packet (hdr_len + marker_extra_len s + length input + pad_len)
    then (none, s)
    else emit s (enet_header s.tx_seq cmd_count pad_len) input
        (fill_from 0 pad_len (λ i. u8 (0x30 + bit_and (u64 (s.tx_seq + i * 3)) 0x4f)))

-- The bytes of an `int` are those of its two's complement pattern: `una` may be below zero.
abbrev pub kcp_header : ℕ → ℕ → ℕ → List ℕ
kcp_header seq seg_len pad_len =
    let conv = bit_xor 0x01020304 (u32 seq) in
    let wnd = 64 + low_bits seq 5 in
    let ts = low_bits (u64 (seq * 33)) 31 in
    let sn = low_bits seq 31 in
    let una = u32 (sn + 2 ^ 32 - seq % 11) in
    u8 conv
    ∷ u8 (shr conv 8)
    ∷ u8 (shr conv 16)
    ∷ u8 (shr conv 24)
    ∷ u8 (seq % 4 + 80)
    ∷ u8 (seq % 3)
    ∷ u8 wnd
    ∷ u8 (shr wnd 8)
    ∷ u8 ts
    ∷ u8 (shr ts 8)
    ∷ u8 (shr ts 16)
    ∷ u8 (shr ts 24)
    ∷ u8 sn
    ∷ u8 (shr sn 8)
    ∷ u8 (shr sn 16)
    ∷ u8 (shr sn 24)
    ∷ u8 una
    ∷ u8 (shr una 8)
    ∷ u8 (shr una 16)
    ∷ u8 (shr una 24)
    ∷ u8 seg_len
    ∷ u8 (shr seg_len 8)
    ∷ 0
    ∷ u8 pad_len
    ∷ []

unfoldable pub wrap_game_kcp : Session → List ℕ → Option (List ℕ) × Session
unfolding marker_extra_len emit
wrap_game_kcp s input =
    let mx = marker_extra_len s in
    let pad_len = s.tx_seq % 5 in
    if ltb obfs_max_packet (24 + mx + length input + pad_len)
    then (none, s)
    else emit s (kcp_header s.tx_seq (mx + length input + pad_len) pad_len) input
        (fill_from 0 pad_len (λ i. u8 (0x55 + bit_and (u64 (s.tx_seq + i)) 0x33)))

abbrev pub dns_header : ℕ → ℕ → List ℕ
dns_header seq label_len =
    be16 (low_bits seq 16)
    ++ (be16 0x0100
        ++ (be16 1
            ++ (be16 0
                ++ (be16 0
                    ++ (be16 0
                        ++ (u8 label_len
                            ∷ (fill_from 0 label_len (λ i. u8 (b'a' + u64 (seq + i) % 26))
                                ++ (3 ∷ b'c' ∷ b'd' ∷ b'n' ∷ 0 ∷ (be16 16 ++ be16 1)))))))))

unfoldable pub wrap_dns_like : Session → List ℕ → Option (List ℕ) × Session
unfolding marker_extra_len emit
wrap_dns_like s input =
    let label_len = 6 + s.tx_seq % 6 in
    let qname_len = 1 + label_len + 1 + 3 + 1 in
    let tail_len = s.tx_seq % 4 in
    let hdr_len = 12 + qname_len + 4 in
    if ltb obfs_max_packet (hdr_len + marker_extra_len s + length input + tail_len)
    then (none, s)
    else emit s (dns_header s.tx_seq label_len) input (replicate tail_len 0)

unfoldable pub wrap_plain : Session → List ℕ → Option (List ℕ) × Session
wrap_plain s input = (some input, record s { tx_seq = u64 (s.tx_seq + 1) })

abbrev pub wrap_as : Profile → Session → List ℕ → Option (List ℕ) × Session
wrap_as off = wrap_plain
wrap_as stun_ice = wrap_stun_ice
wrap_as dtls_record = wrap_dtls_record
wrap_as rtp_media = wrap_rtp_media
wrap_as source_query = wrap_source_query
wrap_as raknet = wrap_raknet
wrap_as quic_short = wrap_quic_short
wrap_as game_enet = wrap_game_enet
wrap_as game_kcp = wrap_game_kcp
wrap_as dns_like = wrap_dns_like

-- `obfs_wrap`: the packet to send, `none` where the code returns a null pointer, and the session.
unfoldable pub obfs_wrap : Session → List ℕ → Option (List ℕ) × Session
obfs_wrap s input = wrap_as s.profile s input
