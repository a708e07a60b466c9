-- ===== src/Obfs/Frame/Fixed.antt =====
-- Frames whose header has a fixed length: behind it `unwrap` finds just what `wrap` put there.
use awg2_webui.Base.{
  ℕ, ◌+◌, ◌<◌, ◌^◌, ◌≡◌, refl, List, ◌++◌, arith, length, take_all, take-append, length-append, ◌-◌,
  ltb-false_of_le,
}
use awg2_webui.Obfs.{Session}
use awg2_webui.Obfs.Wrap.{
  stun_header, dtls_header, rtp_header, query_header, raknet_header, kcp_header,
}
use awg2_webui.Obfs.Unwrap.{
  deliver, unwrap_stun_ice, unwrap_dtls_record, unwrap_rtp_media, unwrap_source_query,
  unwrap_raknet, unwrap_game_kcp,
}

pub unwrap_rtp-header :
    (r : Session) (seq ts ssrc : ℕ) (body : List ℕ)
    → unwrap_rtp_media r (rtp_header seq ts ssrc ++ body) ≡ deliver r body
unfolding unwrap_rtp_media
unwrap_rtp-header r seq ts ssrc body =
    rw (ltb-false_of_le (length (rtp_header seq ts ssrc ++ body)) 12 (omega arith)) refl

pub unwrap_query-header :
    (r : Session) (seq : ℕ) (body : List ℕ)
    → unwrap_source_query r (query_header seq ++ body) ≡ deliver r body
unfolding unwrap_source_query
unwrap_query-header r seq body =
    rw (ltb-false_of_le (length (query_header seq ++ body)) 6 (omega arith)) refl

pub unwrap_raknet-header :
    (r : Session) (nonce : ℕ) (body : List ℕ)
    → unwrap_raknet r (raknet_header nonce ++ body) ≡ deliver r body
unfolding unwrap_raknet
unwrap_raknet-header r nonce body =
    rw (ltb-false_of_le (length (raknet_header nonce ++ body)) 9 (omega arith)) refl

pub unwrap_stun-header :
    (r : Session) (seq n : ℕ) (body : List ℕ)
    → length body ≡ n
    → n < 2 ^ 16
    → unwrap_stun_ice r (stun_header seq n ++ body) ≡ deliver r body
unfolding unwrap_stun_ice
unwrap_stun-header r seq n body e h = ground (arith, take_all n body e)

pub unwrap_dtls-header :
    (r : Session) (seq n : ℕ) (body : List ℕ)
    → length body ≡ n
    → n < 2 ^ 16
    → unwrap_dtls_record r (dtls_header seq n ++ body) ≡ deliver r body
unfolding unwrap_dtls_record
unwrap_dtls-header r seq n body e h = ground (arith, take_all n body e)

pub unwrap_kcp-header :
    (r : Session) (seq n pad : ℕ) (body tail : List ℕ)
    → length body + pad ≡ n
    → length tail ≡ pad
    → n < 2 ^ 16
    → pad < 5
    → unwrap_game_kcp r (kcp_header seq n pad ++ (body ++ tail)) ≡ deliver r body
unfolding unwrap_game_kcp
unwrap_kcp-header r seq n pad body tail e f h k =
    ground (arith, take-append (n - pad) body tail, length-append body tail)
