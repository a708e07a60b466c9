-- ===== src/Obfs/Unwrap.antt =====
-- `obfs_unwrap` of src/obfs.c: one function for each profile's branch. `in + k` with `*out_len = n`
-- is the run of `n` bytes from offset `k` on.
use awg2_webui.Base.{
  ℕ, ◌+◌, ◌-◌, ◌*◌, ◌^◌, not, Option, none, some, List, ◌&&◌, ◌||◌, bit_and, ltb, ◌==◌,
  if◌then◌else◌, length, take, drop, shr, shl, u64, byte_at,
}
use awg2_webui.Obfs.{
  Profile, off, stun_ice, dtls_record, rtp_media, source_query, raknet, quic_short, game_enet,
  game_kcp, dns_like, Session, marker_unwrap_if_needed,
}

abbrev pub be16_read : List ℕ → ℕ → ℕ
be16_read input i = byte_at input i * 2 ^ 8 + byte_at input (i + 1)

-- What the branches share: the marker, then `rx_seq++` unless the packet is refused.
unfoldable pub deliver : Session → List ℕ → Option (List ℕ) × Session
deliver s body =
    let (out, s') = marker_unwrap_if_needed s body in
    elim out [
      | none ↦ (none, s')
      | some payload ↦ (some payload, record s' { rx_seq = u64 (s'.rx_seq + 1) })
    ]

unfoldable pub unwrap_stun_ice : Session → List ℕ → Option (List ℕ) × Session
unwrap_stun_ice s input =
    let body_len = be16_read input 2 in
    if ltb (length input) 20
    then (none, s)
    else if not (byte_at input 4 == 0x21)
        || not (byte_at input 5 == 0x12)
        || not (byte_at input 6 == 0xa4)
        || not (byte_at input 7 == 0x42)
    then (none, s)
    else if ltb (length input) (20 + body_len)
    then (none, s)
    else deliver s (take body_len (drop 20 input))

unfoldable pub unwrap_dtls_record : Session → List ℕ → Option (List ℕ) × Session
unwrap_dtls_record s input =
    let body_len = be16_read input 11 in
    if ltb (length input) 13
    then (none, s)
    else if not (byte_at input 1 == 0xfe) || not (byte_at input 2 == 0xfd)
    then (none, s)
    else if ltb (length input) (13 + body_len)
    then (none, s)
    else deliver s (take body_len (drop 13 input))

unfoldable pub unwrap_rtp_media : Session → List ℕ → Option (List ℕ) × Session
unwrap_rtp_media s input =
    if ltb (length input) 12
    then (none, s)
    else if not (shr (byte_at input 0) 6 == 2)
    then (none, s)
    else deliver s (drop 12 input)

unfoldable pub unwrap_source_query : Session → List ℕ → Option (List ℕ) × Session
unwrap_source_query s input =
    if ltb (length input) 6
    then (none, s)
    else if not (
        byte_at input 0 == 0xff
        && byte_at input 1 == 0xff
        && byte_at input 2 == 0xff
        && byte_at input 3 == 0xff)
    then (none, s)
    else deliver s (drop 6 input)

unfoldable pub unwrap_raknet : Session → List ℕ → Option (List ℕ) × Session
unwrap_raknet s input =
    if ltb (length input) 9
    then (none, s)
    else if not (byte_at input 0 == 0x84)
    then (none, s)
    else deliver s (drop 9 input)

unfoldable pub unwrap_quic_short : Session → List ℕ → Option (List ℕ) × Session
unwrap_quic_short s input =
    let dcid_len = byte_at input 1 in
    let pn_len = byte_at input 2 in
    let pad_len = byte_at input 3 in
    let hdr_len = 4 + dcid_len + pn_len in
    if ltb (length input) 13
    then (none, s)
    else if bit_and (byte_at input 0) 0x40 == 0
    then (none, s)
    else if ltb dcid_len 8 || ltb 12 dcid_len || ltb pn_len 1 || ltb 4 pn_len || ltb 7 pad_len
    then (none, s)
    else if ltb (length input) (hdr_len + pad_len)
    then (none, s)
    else deliver s (take (length input - hdr_len - pad_len) (drop hdr_len input))

unfoldable pub unwrap_game_enet : Session → List ℕ → Option (List ℕ) × Session
unwrap_game_enet s input =
    let cmd_count = byte_at input 4 in
    let pad_len = byte_at input 5 in
    let hdr_len = 6 + cmd_count * 4 in
    if ltb (length input) 10
    then (none, s)
    else if ltb cmd_count 1 || ltb 3 cmd_count || ltb 5 pad_len
    then (none, s)
    else if ltb (length input) (hdr_len + pad_len)
    then (none, s)
    else deliver s (take (length input - hdr_len - pad_len) (drop hdr_len input))

-- `in[20] | in[21] << 8` of two bytes is their little-endian value.
unfoldable pub unwrap_game_kcp : Session → List ℕ → Option (List ℕ) × Session
unwrap_game_kcp s input =
    let cmd = byte_at input 4 in
    let pad_len = byte_at input 23 in
    let seg_len = byte_at input 20 + shl (byte_at input 21) 8 in
    if ltb (length input) 24
    then (none, s)
    else if ltb cmd 80 || ltb 83 cmd || ltb 4 pad_len
    then (none, s)
    else if ltb (length input - 24) seg_len
    then (none, s)
    else if ltb seg_len pad_len
    then (none, s)
    else deliver s (take (seg_len - pad_len) (drop 24 input))

unfoldable pub unwrap_dns_like : Session → List ℕ → Option (List ℕ) × Session
unwrap_dns_like s input =
    let label_len = byte_at input 12 in
    let qname_len = 1 + label_len + 1 + 3 + 1 in
    let hdr_len = 12 + qname_len + 4 in
    if ltb (length input) 22
    then (none, s)
    else if not (be16_read input 4 == 1)
    then (none, s)
    else if ltb label_len 6 || ltb 11 label_len
    then (none, s)
    else if ltb (length input) hdr_len
    then (none, s)
    else if not (byte_at input (13 + label_len) == 3)
        || not (byte_at input (14 + label_len) == b'c')
        || not (byte_at input (15 + label_len) == b'd')
        || not (byte_at input (16 + label_len) == b'n')
        || not (byte_at input (17 + label_len) == 0)
    then (none, s)
    else deliver s (drop hdr_len input)

unfoldable pub unwrap_plain : Session → List ℕ → Option (List ℕ) × Session
unwrap_plain s input = (some input, record s { rx_seq = u64 (s.rx_seq + 1) })

abbrev pub unwrap_as : Profile → Session → List ℕ → Option (List ℕ) × Session
unwrap_as off = unwrap_plain
unwrap_as stun_ice = unwrap_stun_ice
unwrap_as dtls_record = unwrap_dtls_record
unwrap_as rtp_media = unwrap_rtp_media
unwrap_as source_query = unwrap_source_query
unwrap_as raknet = unwrap_raknet
unwrap_as quic_short = unwrap_quic_short
unwrap_as game_enet = unwrap_game_enet
unwrap_as game_kcp = unwrap_game_kcp
unwrap_as dns_like = unwrap_dns_like

-- `obfs_unwrap`: the payload, `none` where the code returns a null pointer, and the session.
unfoldable pub obfs_unwrap : Session → List ℕ → Option (List ℕ) × Session
obfs_unwrap s input = unwrap_as s.profile s input
