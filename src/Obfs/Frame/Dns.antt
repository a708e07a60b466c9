-- ===== src/Obfs/Frame/Dns.antt =====
-- The DNS-like frame: a query whose first label has 6 to 11 letters.
use mathlib.Core.List.{append_assoc}
use awg2_webui.Base.{
  ℕ, ◌+◌, ◌%◌, ◌≤◌, ◌≡◌, ap, ◌∙◌, List, [], ◌∷◌, ◌++◌, arith, length, drop-append, length-append,
  length-fill_from, fill_from, u8, u64, low_bits, byte_at, get_or-append_right, be16,
}
use awg2_webui.Obfs.{Session}
use awg2_webui.Obfs.Wrap.{dns_header}
use awg2_webui.Obfs.Unwrap.{deliver, unwrap_dns_like}

-- The header before the label, the label, and what ends the question.
abbrev dns_start : ℕ → ℕ → List ℕ
dns_start seq len =
    be16 (low_bits seq 16)
    ++ (be16 0x0100 ++ (be16 1 ++ (be16 0 ++ (be16 0 ++ (be16 0 ++ (u8 len ∷ []))))))

abbrev dns_label : ℕ → ℕ → List ℕ
dns_label seq len = fill_from 0 len (λ i. u8 (b'a' + u64 (seq + i) % 26))

abbrev dns_end : List ℕ
dns_end = 3 ∷ b'c' ∷ b'd' ∷ b'n' ∷ 0 ∷ (be16 16 ++ be16 1)

dns_header-append :
    (seq len : ℕ) (body : List ℕ)
    → dns_header seq len ++ body ≡ dns_start seq len ++ (dns_label seq len ++ (dns_end ++ body))
dns_header-append seq len body =
    ap (λ t. dns_start seq len ++ t) (append_assoc (dns_label seq len) dns_end body)

pub length-dns_header : (seq len : ℕ) → length (dns_header seq len) ≡ 22 + len
length-dns_header seq len = omega (
  arith,
  length-append (dns_label seq len) dns_end,
  length-fill_from 0 len (λ i. u8 (b'a' + u64 (seq + i) % 26)),
)

byte_at-dns_header :
    (seq len k n : ℕ) (body : List ℕ)
    → n ≡ 13 + len + k
    → byte_at (dns_header seq len ++ body) n ≡ byte_at (dns_end ++ body) k
byte_at-dns_header seq len k n body e =
    ap (λ t. byte_at t n) (dns_header-append seq len body)
    ∙ get_or-append_right (dns_start seq len) (dns_label seq len ++ (dns_end ++ body)) n (len + k) 0
        (omega arith)
    ∙ get_or-append_right (dns_label seq len) (dns_end ++ body) (len + k) k 0
        (omega (arith, length-fill_from 0 len (λ i. u8 (b'a' + u64 (seq + i) % 26))))

pub unwrap_dns-header :
    (r : Session) (seq len : ℕ) (body : List ℕ)
    → 6 ≤ len
    → len ≤ 11
    → unwrap_dns_like r (dns_header seq len ++ body) ≡ deliver r body
unfolding unwrap_dns_like
unwrap_dns-header r seq len body lo hi = ground (
  arith,
  length-dns_header seq len,
  length-append (dns_header seq len) body,
  drop-append (22 + len) (dns_header seq len) body,
  byte_at-dns_header seq len 0 (13 + len) body,
  byte_at-dns_header seq len 1 (14 + len) body,
  byte_at-dns_header seq len 2 (15 + len) body,
  byte_at-dns_header seq len 3 (16 + len) body,
  byte_at-dns_header seq len 4 (17 + len) body,
)
