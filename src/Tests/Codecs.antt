-- ===== src/Tests/Codecs.antt =====
-- Runs of the codecs: src/codec/Base64.h and src/codec/URICode.h.
use prpc.Base.{◌≡◌, ◌⊎◌, true, false, [], ◌∷◌, arith, length, Bytes}
use prpc.Base.Outcome.{ok, fault, Returns}
use prpc.Codec.Base64.{base64_encode, base64_decode}
use prpc.Codec.Base64.RoundTrip.{decode-encode}
use prpc.Codec.Uri.{encode, decode}
use prpc.Codec.Uri.RoundTrip.{AllSafe, is_ascii, decode-encode_ascii, encode_wide}

-- "ant!"
abbrev text : Bytes
text = b'a' ∷ b'n' ∷ b't' ∷ b'!' ∷ []

decode-encode_example :
    Returns (base64_encode text) λ output. (length output ≡ 8) × (base64_decode output ≡ ok text)
decode-encode_example =
    decode-encode text (omega arith, (omega arith, (omega arith, (omega arith, tt))))

decode-encode_ascii_example : Returns (encode text) λ out. AllSafe out × (decode out ≡ ok text)
decode-encode_ascii_example =
    decode-encode_ascii text (omega arith, (omega arith, (omega arith, (omega arith, tt))))

abbrev wide : Bytes
wide = b'a' ∷ 195 ∷ b'b' ∷ []

encode_wide_example :
    ((is_ascii wide ≡ true) × ((out : Bytes) × (encode wide ≡ ok out)))
    ⊎ ((is_ascii wide ≡ false) × (encode wide ≡ fault))
encode_wide_example = encode_wide wide
