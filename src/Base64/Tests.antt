-- ===== src/Base64/Tests.antt =====
-- Tests of the base64 decoder and of its theorems.
use awg2_webui.Base.{ℕ, ◌≡◌, refl, some, none, List, arith, codes}
use awg2_webui.Base64.{base64_decode}
use awg2_webui.Base64.RoundTrip.{base64_encode, base64_decode-base64_encode}

-- "fooba" (RFC 4648, section 10)
abbrev fooba : List ℕ
fooba = codes "fooba"

encodes_fooba : base64_encode fooba ≡ codes "Zm9vYmE="
unfolding base64_encode
encodes_fooba = refl

refuses_letter : base64_decode (codes "Zm9v!mE=") 32 ≡ none
unfolding base64_decode
refuses_letter = refl

refuses_small_buffer : base64_decode (codes "Zm9vYmE=") 4 ≡ none
unfolding base64_decode
refuses_small_buffer = refl

decodes_fooba : base64_decode (codes "Zm9vYmE=") 32 ≡ some fooba
unfolding base64_decode
decodes_fooba = refl

base64_decode-base64_encode_example : base64_decode (base64_encode fooba) 32 ≡ some fooba
base64_decode-base64_encode_example =
    base64_decode-base64_encode fooba 32
      (omega arith, (omega arith, (omega arith, (omega arith, (omega arith, tt))))) (omega arith)
