-- ===== src/Codec/Uri.antt =====
-- Percent encoding: `URICode` of src/codec/URICode.h. A `char` is signed: a byte of 128 or more is a
-- negative index of `_hex`, and `isalnum` of the C locale says no to it.
pub mod RoundTrip
use prpc.Base.{
  ℕ, ◌+◌, ◌-◌, ◌*◌, ◌/◌, ◌%◌, ◌≡◌, Bool, true, false, Option, none, some, get_elem?, ◌&&◌, ◌||◌,
  not, List, [], ◌∷◌, ◌++◌, Bytes, eqb, leb, ltb, if◌then◌else◌,
}
use prpc.Base.Bits.{bit_and, bit_or}
use prpc.Base.Outcome.{Outcome, ok, fault, ◌>>=◌, ◌>>◌, check}

-- `isalnum` of the C locale
abbrev pub isalnum : ℕ → Bool
isalnum c = (leb b'0' c && leb c b'9') || ((leb b'A' c && leb c b'Z') || (leb b'a' c && leb c b'z'))

unfoldable pub is_plain : ℕ → Bool
is_plain c = isalnum c || (eqb c b'_' || (eqb c b'-' || (eqb c b'.' || eqb c b'~')))

-- An `int` in two's complement: `negsuc n` is -1 - n.
pub data ℤ : Type 0 where
  pos : ℕ → ℤ
  negsuc : ℕ → ℤ

-- A `char` as an `int`, and its `>> 4` and `& 0x0F`.
unfoldable pub signed : ℕ → ℤ
signed c = if ltb c 128 then pos c else negsuc (255 - c)

abbrev pub shift_right4 : ℤ → ℤ
shift_right4 (pos n) = pos (n / 16)
shift_right4 (negsuc n) = negsuc (n / 16)

abbrev pub low4 : ℤ → ℤ
low4 (pos n) = pos (bit_and n 0x0f)
low4 (negsuc n) = pos (15 - bit_and n 0x0f)

-- "0123456789ABCDEF" and its final 0
abbrev pub hex_table : Bytes
hex_table =
    b'0' ∷ b'1' ∷ b'2' ∷ b'3' ∷ b'4' ∷ b'5' ∷ b'6' ∷ b'7' ∷ b'8' ∷ b'9' ∷ b'A' ∷ b'B' ∷ b'C' ∷ b'D'
    ∷ b'E' ∷ b'F' ∷ 0 ∷ []

-- `_hex[i]`
unfoldable pub hex : ℤ → Outcome ℕ
hex (negsuc n) = fault
hex (pos n) = elim (get_elem? hex_table n) [ none ↦ fault | some h ↦ ok h ]

unfoldable pub encode_char : ℕ → Outcome Bytes
unfolding is_plain signed hex
encode_char c = if is_plain c then ok (c ∷ []) else do
  high ← hex (shift_right4 (signed c))
  low ← hex (low4 (signed c))
  ok (b'%' ∷ high ∷ low ∷ [])

unfoldable pub encode : Bytes → Outcome Bytes
unfolding encode_char
encode [] = ok []
encode (c ∷ uri) = do out ← encode_char c; rest ← encode uri; ok (out ++ rest)

-- `c + 10 - 'A'`; any other character ends the process
unfoldable pub letter_to_hex : ℕ → Outcome ℕ
letter_to_hex c =
    if leb b'A' c && leb c b'F'
    then ok (c + 10 - b'A')
    else if leb b'a' c && leb c b'f'
    then ok (c + 10 - b'a')
    else if leb b'0' c && leb c b'9'
    then ok (c - b'0')
    else fault

-- `SCHECK(end - p > 2)` fails where fewer than two characters follow the '%'.
unfoldable pub decode : Bytes → Outcome Bytes
unfolding letter_to_hex
decode [] = ok []
decode (c ∷ []) = if eqb c b'%' then fault else ok (c ∷ [])
decode (c ∷ d ∷ []) = if eqb c b'%' then fault else do rest ← decode (d ∷ []); ok (c ∷ rest)
decode (c ∷ d ∷ e ∷ uri) =
    let escaped = decode uri in
    let plain = decode (d ∷ e ∷ uri) in
    if eqb c b'%'
    then (do
      h ← letter_to_hex d
      l ← letter_to_hex e
      rest ← escaped
      ok (bit_or (h * 16) l % 256 ∷ rest))
    else do rest ← plain; ok (c ∷ rest)
