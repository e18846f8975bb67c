-- ===== src/Codec/Base64.antt =====
-- Base 64: `Base64` of src/codec/Base64.h. Buffers and strings are lists of bytes; the byte at the
-- end of a `std::string` is its terminator, and what lies behind that is out of bounds.
pub mod Groups
pub mod RoundTrip
use prpc.Base.{
  ℕ, zero, suc, ◌+◌, ◌*◌, ◌/◌, ◌%◌, ◌^◌, ◌≡◌, Bool, true, false, ◌&&◌, ◌||◌, not, List, [], ◌∷◌,
  ◌++◌, Bytes, eqb, leb, length, if◌then◌else◌,
}
use prpc.Base.Bits.{bit_and, bit_or}
use prpc.Base.Outcome.{Outcome, ok, fault, ◌>>=◌, ◌>>◌, check}

-- `table[i]`, out of bounds a fault
unfoldable pub at : List ℕ → ℕ → Outcome ℕ
at [] i = fault
at (x ∷ xs) zero = ok x
at (x ∷ xs) (suc i) = at xs i

abbrev pub encode_table : List ℕ
encode_table =
    65 ∷ 66 ∷ 67 ∷ 68 ∷ 69 ∷ 70 ∷ 71 ∷ 72 ∷ 73 ∷ 74 ∷ 75 ∷ 76 ∷ 77 ∷ 78 ∷ 79 ∷ 80 ∷ 81 ∷ 82 ∷ 83
    ∷ 84 ∷ 85 ∷ 86 ∷ 87 ∷ 88 ∷ 89 ∷ 90 ∷ 97 ∷ 98 ∷ 99 ∷ 100 ∷ 101 ∷ 102 ∷ 103 ∷ 104 ∷ 105 ∷ 106
    ∷ 107 ∷ 108 ∷ 109 ∷ 110 ∷ 111 ∷ 112 ∷ 113 ∷ 114 ∷ 115 ∷ 116 ∷ 117 ∷ 118 ∷ 119 ∷ 120 ∷ 121 ∷ 122
    ∷ 48 ∷ 49 ∷ 50 ∷ 51 ∷ 52 ∷ 53 ∷ 54 ∷ 55 ∷ 56 ∷ 57 ∷ 43 ∷ 47 ∷ []

abbrev pub decode_table : List ℕ
decode_table =
    0 ∷ 0 ∷ 0 ∷ 0 ∷ 0 ∷ 0 ∷ 0 ∷ 0 ∷ 0 ∷ 0 ∷ 0 ∷ 0 ∷ 0 ∷ 0 ∷ 0 ∷ 0 ∷ 0 ∷ 0 ∷ 0 ∷ 0 ∷ 0 ∷ 0 ∷ 0 ∷ 0
    ∷ 0 ∷ 0 ∷ 0 ∷ 0 ∷ 0 ∷ 0 ∷ 0 ∷ 0 ∷ 0 ∷ 0 ∷ 0 ∷ 0 ∷ 0 ∷ 0 ∷ 0 ∷ 0 ∷ 0 ∷ 0 ∷ 0 ∷ 62 ∷ 0 ∷ 0 ∷ 0
    ∷ 63 ∷ 52 ∷ 53 ∷ 54 ∷ 55 ∷ 56 ∷ 57 ∷ 58 ∷ 59 ∷ 60 ∷ 61 ∷ 0 ∷ 0 ∷ 0 ∷ 0 ∷ 0 ∷ 0 ∷ 0 ∷ 0 ∷ 1 ∷ 2
    ∷ 3 ∷ 4 ∷ 5 ∷ 6 ∷ 7 ∷ 8 ∷ 9 ∷ 10 ∷ 11 ∷ 12 ∷ 13 ∷ 14 ∷ 15 ∷ 16 ∷ 17 ∷ 18 ∷ 19 ∷ 20 ∷ 21 ∷ 22
    ∷ 23 ∷ 24 ∷ 25 ∷ 0 ∷ 0 ∷ 0 ∷ 0 ∷ 0 ∷ 0 ∷ 26 ∷ 27 ∷ 28 ∷ 29 ∷ 30 ∷ 31 ∷ 32 ∷ 33 ∷ 34 ∷ 35 ∷ 36
    ∷ 37 ∷ 38 ∷ 39 ∷ 40 ∷ 41 ∷ 42 ∷ 43 ∷ 44 ∷ 45 ∷ 46 ∷ 47 ∷ 48 ∷ 49 ∷ 50 ∷ 51 ∷ []

unfoldable pub is_base64 : ℕ → Bool
is_base64 c =
    eqb c b'+'
    || (eqb c b'/'
        || ((leb b'0' c && leb c b'9')
            || ((leb b'A' c && leb c b'Z') || (leb b'a' c && leb c b'z'))))

-- one round of the loop: three bytes in, four characters out
unfoldable pub encode_three : ℕ → ℕ → ℕ → Outcome Bytes
unfolding at
encode_three x y z = do
  p ← at encode_table (x / 4)
  q ← at encode_table (bit_and (bit_or (x * 16) (y / 16)) 0x3f)
  r ← at encode_table (bit_and (bit_or (y * 4) (z / 64)) 0x3f)
  s ← at encode_table (bit_and z 0x3f)
  ok (p ∷ q ∷ r ∷ s ∷ [])

-- `case 1`
unfoldable pub encode_one : ℕ → Outcome Bytes
unfolding at
encode_one x = do
  p ← at encode_table (bit_and x 0xfc / 4)
  q ← at encode_table (bit_and x 0x03 * 16)
  ok (p ∷ q ∷ b'=' ∷ b'=' ∷ [])

-- `case 2`
unfoldable pub encode_two : ℕ → ℕ → Outcome Bytes
unfolding at
encode_two x y = do
  p ← at encode_table (bit_and x 0xfc / 4)
  q ← at encode_table (bit_or (bit_and x 0x03 * 16) (bit_and y 0xf0 / 16))
  r ← at encode_table (bit_and y 0x0f * 4)
  ok (p ∷ q ∷ r ∷ b'=' ∷ [])

unfoldable pub base64_encode : Bytes → Outcome Bytes
unfolding encode_three encode_one encode_two
base64_encode [] = ok []
base64_encode (x ∷ []) = encode_one x
base64_encode (x ∷ y ∷ []) = encode_two x y
base64_encode (x ∷ y ∷ z ∷ input) = do
  group ← encode_three x y z
  output ← base64_encode input
  ok (group ++ output)

-- `input[in_idx]`, with what follows it
unfoldable pub peek : Bytes → Outcome (ℕ × Bytes)
peek [] = fault
peek (c ∷ input) = ok (c, input)

-- `SCHECK(is_base64(input[in_idx]))`, and the table at that character
unfoldable pub checked : ℕ → Outcome ℕ
unfolding at is_base64
checked c = check (is_base64 c) >> at decode_table c

-- the last character of a group
unfoldable pub decode_fourth : ℕ → Bytes → Outcome (Bytes × Bytes)
unfolding peek checked
decode_fourth value input = do
  (c, after) ← peek input
  if eqb c b'='
      then ok ([], input)
      else do d ← checked c; ok (bit_and ((value + d) % 2 ^ 32) 0xff % 256 ∷ [], after)

-- its third character
unfoldable pub decode_third : ℕ → Bytes → Outcome (Bytes × Bytes)
unfolding peek checked decode_fourth
decode_third value input = do
  (c, after) ← peek input
  if eqb c b'=' then ok ([], input) else do
    d ← checked c
    let value' = (value + d * 2 ^ 6) % 2 ^ 32
    (bytes, rest) ← decode_fourth value' after
    ok (bit_and value' 0xff00 / 2 ^ 8 % 256 ∷ bytes, rest)

-- one round of the loop
unfoldable pub decode_group : Bytes → Outcome (Bytes × Bytes)
unfolding peek checked at decode_third
decode_group input = do
  (c, input') ← peek input
  d ← checked c
  let value = d * 2 ^ 18
  (c', input'') ← peek input'
  d' ← at decode_table c'
  let value' = (value + d' * 2 ^ 12) % 2 ^ 32
  (bytes, rest) ← decode_third value' input''
  ok (bit_and value' 0xff0000 / 2 ^ 16 % 256 ∷ bytes, rest)

-- `while (i < in_len)`, with the rounds that are left
unfoldable pub decode_groups : ℕ → Bytes → Outcome Bytes
unfolding decode_group
decode_groups zero input = ok []
decode_groups (suc n) input = do
  (bytes, rest) ← decode_group input
  output ← decode_groups n rest
  ok (bytes ++ output)

-- `i` rises by 4, so the rounds are a quarter of the length, rounded up.
unfoldable pub base64_decode : Bytes → Outcome Bytes
unfolding decode_groups
base64_decode input = decode_groups ((length input + 3) / 4) (input ++ 0 ∷ [])
