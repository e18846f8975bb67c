-- ===== src/Codec/Base64/RoundTrip.antt =====
-- `base64_decode` gives back what `base64_encode` was given.
use prpc.Base.{ℕ, suc, ◌+◌, ◌*◌, ◌/◌, ◌%◌, ◌≡◌, refl, [], ◌∷◌, ◌++◌, Bytes, length, arith}
use prpc.Base.Outcome.{ok, Returns}
use prpc.Codec.Base64.Groups.{
  AllBytes, char_of, encode_three_lem, decode_three_lem, encode_one_lem, decode_one_lem,
  encode_two_lem, decode_two_lem,
}
use prpc.Codec.Base64.{base64_encode, base64_decode, decode_groups}

-- three bytes to a group, the last one filled up
abbrev groups : Bytes → ℕ
groups [] = 0
groups (x ∷ []) = 1
groups (x ∷ y ∷ []) = 1
groups (x ∷ y ∷ z ∷ input) = suc (groups input)

groups-length : (input : Bytes) → groups input ≡ (length input + 2) / 3
groups-length [] = refl
groups-length (x ∷ []) = refl
groups-length (x ∷ y ∷ []) = refl
groups-length (x ∷ y ∷ z ∷ input) = omega (arith, groups-length input)

record Encodes (input output : Bytes) : Type 0 where
  size : length output ≡ groups input * 4
  back : (rest : Bytes) → decode_groups (groups input) (output ++ rest) ≡ ok input

encode-Encodes : (input : Bytes) → AllBytes input → Returns (base64_encode input) (Encodes input)
unfolding base64_encode decode_groups
encode-Encodes [] h = ([], refl, record { size = refl; back = λ rest. refl })
encode-Encodes (x ∷ []) h =
    (_, encode_one_lem x h.0, record { size = refl; back = λ rest. rw (decode_one_lem x h.0) })
encode-Encodes (x ∷ y ∷ []) h = (
  _,
  encode_two_lem x h.0 y h.1.0,
  record { size = refl; back = λ rest. rw (decode_two_lem x h.0 y h.1.0) },
)
encode-Encodes (x ∷ y ∷ z ∷ input) h =
    let (output, run, e) = encode-Encodes input h.1.1.1 in
    (
      char_of (x / 4)
          ∷ char_of (x % 4 * 16 + y / 16)
          ∷ char_of (y % 16 * 4 + z / 64)
          ∷ char_of (z % 64)
          ∷ output,
      rw (encode_three_lem x y z h.0 h.1.0 h.1.1.0, run) refl,
      record {
        size = omega (arith, e.size);
        back = λ rest. rw (decode_three_lem x y z h.0 h.1.0 h.1.1.0, e.back rest);
      },
    )

-- Encoding bytes does not fault; four characters stand for each three bytes, and decoding gives the
-- bytes back.
pub decode-encode :
    (input : Bytes)
    → AllBytes input
    → Returns
        (base64_encode input)
        λ output. (length output ≡ (length input + 2) / 3 * 4) × (base64_decode output ≡ ok input)
unfolding base64_decode
decode-encode input h =
    let (output, run, e) = encode-Encodes input h in
    let rounds : (length output + 3) / 4 ≡ groups input = omega (arith, e.size) in
    (output, run, (omega (arith, e.size, groups-length input), rw rounds (e.back (0 ∷ []))))
