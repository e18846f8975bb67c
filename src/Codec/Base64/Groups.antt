-- ===== src/Codec/Base64/Groups.antt =====
-- One group of base 64: its characters, and that decoding them gives the bytes back.
use prpc.Base.{
  ℕ, zero, suc, ◌+◌, ◌*◌, ◌/◌, ◌%◌, ◌^◌, ◌≡◌, ◌<◌, refl, Bool, true, false, ◌&&◌, not, [], ◌∷◌,
  Bytes, eqb, arith,
}
use prpc.Base.Bits.{
  bit_and, bit_or, bit_and-3, bit_and-0xf, bit_and-0x3f, bit_and-0xff, bit_and-0xfc, bit_and-0xf0,
  bit_and-0xff00, bit_and-0xff0000, bit_or-shift2, bit_or-shift4,
}
use prpc.Base.Outcome.{Outcome, ok, fault, ◌>>=◌}
use prpc.Codec.Base64.{
  at, encode_table, decode_table, is_base64, encode_three, encode_one, encode_two, peek, checked,
  decode_fourth, decode_third, decode_group,
}

abbrev pub AllBytes : Bytes → Type 0
AllBytes [] = Unit {0}
AllBytes (x ∷ xs) = (x < 256) × AllBytes xs

-- the character of a group of six bits
abbrev pub char_of : ℕ → ℕ
char_of i = elim (at encode_table i) [ ok c ↦ c | fault ↦ 0 ]

abbrev is_ok : ℕ → Outcome ℕ → Bool
is_ok n (ok m) = eqb m n
is_ok n fault = false

is_ok-eq : (n : ℕ) (o : Outcome ℕ) → is_ok n o ≡ true → o ≡ ok n
is_ok-eq n (ok m) h = ground (arith, h)
is_ok-eq n fault h = cc

first_hold : (ℕ → Bool) → ℕ → Bool
first_hold test zero = true
first_hold test (suc n) = first_hold test n && test n

first_hold-at : (test : ℕ → Bool) (n i : ℕ) → i < n → first_hold test n ≡ true → test i ≡ true
unfolding first_hold
first_hold-at test (suc n) i h e = ground (arith, first_hold-at test n i)
first_hold-at test zero i h e = absurd (omega arith)

six_bits : ℕ → Bool
six_bits i =
    is_ok (char_of i) (at encode_table i)
    && (is_ok i (checked (char_of i))
        && (is_ok i (at decode_table (char_of i)) && not (eqb (char_of i) b'=')))

six_bits_table : first_hold six_bits 64 ≡ true
unfolding first_hold six_bits at checked is_base64
six_bits_table = refl

-- Each group of six bits has a character, which is no '=' and is decoded to the group.
record SixBits (i : ℕ) : Type 0 where
  encoded : at encode_table i ≡ ok (char_of i)
  accepted : checked (char_of i) ≡ ok i
  decoded : at decode_table (char_of i) ≡ ok i
  no_pad : eqb (char_of i) b'=' ≡ false

six : (i : ℕ) → i < 64 → SixBits i
unfolding six_bits
six i h =
    let e = first_hold-at six_bits 64 i h six_bits_table in
    record {
      encoded = is_ok-eq (char_of i) (at encode_table i) (ground (arith, e));
      accepted = is_ok-eq i (checked (char_of i)) (ground (arith, e));
      decoded = is_ok-eq i (at decode_table (char_of i)) (ground (arith, e));
      no_pad = ground (arith, e);
    }

-- The bytes of a group of three, from its four groups of six bits.
module _ (i j : ℕ) (hi : i < 64) (hj : j < 64) where
  head_value : (i * 2 ^ 18 + j * 2 ^ 12) % 2 ^ 32 ≡ i * 262144 + j * 4096
  head_value = omega arith

  first_byte : bit_and (i * 262144 + j * 4096) 0xff0000 / 2 ^ 16 % 256 ≡ i * 4 + j / 16
  first_byte = omega (arith, bit_and-0xff0000 (i * 262144 + j * 4096))

  decode_group_lem :
      (input : Bytes)
      → decode_group (char_of i ∷ char_of j ∷ input)
        ≡ (decode_third (i * 262144 + j * 4096) input >>= λ r. ok ((i * 4 + j / 16) ∷ r.0, r.1))
  unfolding decode_group peek
  decode_group_lem input = rw ((six i hi).accepted, (six j hj).decoded, head_value, first_byte)

  module _ (k : ℕ) (hk : k < 64) where
    third_value : (i * 262144 + j * 4096 + k * 2 ^ 6) % 2 ^ 32 ≡ i * 262144 + j * 4096 + k * 64
    third_value = omega arith

    second_byte :
        bit_and (i * 262144 + j * 4096 + k * 64) 0xff00 / 2 ^ 8 % 256 ≡ j % 16 * 16 + k / 4
    second_byte = omega (arith, bit_and-0xff00 (i * 262144 + j * 4096 + k * 64))

    decode_third_lem :
        (input : Bytes)
        → decode_third (i * 262144 + j * 4096) (char_of k ∷ input) ≡ (
            decode_fourth (i * 262144 + j * 4096 + k * 64) input >>= λ r.
            ok ((j % 16 * 16 + k / 4) ∷ r.0, r.1))
    unfolding decode_third peek
    decode_third_lem input = rw ((six k hk).no_pad, (six k hk).accepted, third_value, second_byte)

    third_byte :
        (l : ℕ)
        → l < 64
        → bit_and ((i * 262144 + j * 4096 + k * 64 + l) % 2 ^ 32) 0xff % 256 ≡ k % 4 * 64 + l
    third_byte l hl = omega (arith, bit_and-0xff ((i * 262144 + j * 4096 + k * 64 + l) % 2 ^ 32))

    decode_fourth_lem :
        (l : ℕ)
        → l < 64
        → (input : Bytes)
        → decode_fourth (i * 262144 + j * 4096 + k * 64) (char_of l ∷ input)
          ≡ ok ((k % 4 * 64 + l) ∷ [], input)
    unfolding decode_fourth peek
    decode_fourth_lem l hl input = rw ((six l hl).no_pad, (six l hl).accepted, third_byte l hl)

decode_fourth-pad : (v : ℕ) (input : Bytes) → decode_fourth v (b'=' ∷ input) ≡ ok ([], b'=' ∷ input)
unfolding decode_fourth peek
decode_fourth-pad v input = refl

decode_third-pad : (v : ℕ) (input : Bytes) → decode_third v (b'=' ∷ input) ≡ ok ([], b'=' ∷ input)
unfolding decode_third peek
decode_third-pad v input = refl

module _ (x y z : ℕ) (hx : x < 256) (hy : y < 256) (hz : z < 256) where
  second : bit_and (bit_or (x * 16) (y / 16)) 0x3f ≡ x % 4 * 16 + y / 16
  second = omega (arith, bit_and-0x3f (bit_or (x * 16) (y / 16)), bit_or-shift4 x (y / 16))

  third : bit_and (bit_or (y * 4) (z / 64)) 0x3f ≡ y % 16 * 4 + z / 64
  third = omega (arith, bit_and-0x3f (bit_or (y * 4) (z / 64)), bit_or-shift2 y (z / 64))

  pub encode_three_lem :
      encode_three x y z
      ≡ ok (
          char_of (x / 4)
          ∷ char_of (x % 4 * 16 + y / 16)
          ∷ char_of (y % 16 * 4 + z / 64)
          ∷ char_of (z % 64)
          ∷ [])
  unfolding encode_three
  encode_three_lem = rw (
    second,
    third,
    bit_and-0x3f z,
    (six (x / 4) (omega arith)).encoded,
    (six (x % 4 * 16 + y / 16) (omega arith)).encoded,
    (six (y % 16 * 4 + z / 64) (omega arith)).encoded,
    (six (z % 64) (omega arith)).encoded,
  )

  pub decode_three_lem :
      (rest : Bytes)
      → decode_group (
          char_of (x / 4)
          ∷ char_of (x % 4 * 16 + y / 16)
          ∷ char_of (y % 16 * 4 + z / 64)
          ∷ char_of (z % 64)
          ∷ rest)
        ≡ ok (x ∷ y ∷ z ∷ [], rest)
  decode_three_lem rest =
      rw
        (
          decode_group_lem (x / 4) (x % 4 * 16 + y / 16) (omega arith) (omega arith),
          decode_third_lem (x / 4) (x % 4 * 16 + y / 16) (omega arith) (omega arith)
              (y % 16 * 4 + z / 64) (omega arith),
          decode_fourth_lem (x / 4) (x % 4 * 16 + y / 16) (omega arith) (omega arith)
              (y % 16 * 4 + z / 64) (omega arith) (z % 64) (omega arith),
        )
        (ground arith)

module _ (x : ℕ) (hx : x < 256) where
  pub encode_one_lem : encode_one x ≡ ok (char_of (x / 4) ∷ char_of (x % 4 * 16) ∷ b'=' ∷ b'=' ∷ [])
  unfolding encode_one
  encode_one_lem =
      let p : bit_and x 0xfc / 4 ≡ x / 4 = omega (arith, bit_and-0xfc x hx) in
      rw (
        p,
        bit_and-3 x,
        (six (x / 4) (omega arith)).encoded,
        (six (x % 4 * 16) (omega arith)).encoded,
      )

  pub decode_one_lem :
      (rest : Bytes)
      → decode_group (char_of (x / 4) ∷ char_of (x % 4 * 16) ∷ b'=' ∷ rest)
        ≡ ok (x ∷ [], b'=' ∷ rest)
  decode_one_lem rest =
      rw
        (
          decode_group_lem (x / 4) (x % 4 * 16) (omega arith) (omega arith),
          decode_third-pad (x / 4 * 262144 + x % 4 * 16 * 4096),
        )
        (ground arith)

  module _ (y : ℕ) (hy : y < 256) where
    pub encode_two_lem :
        encode_two x y
        ≡ ok (char_of (x / 4) ∷ char_of (x % 4 * 16 + y / 16) ∷ char_of (y % 16 * 4) ∷ b'=' ∷ [])
    unfolding encode_two
    encode_two_lem =
        let p : bit_and x 0xfc / 4 ≡ x / 4 = omega (arith, bit_and-0xfc x hx) in
        let q : bit_and y 0xf0 / 16 ≡ y / 16 = omega (arith, bit_and-0xf0 y hy) in
        rw (
          p,
          q,
          bit_and-3 x,
          bit_and-0xf y,
          bit_or-shift4 (x % 4) (y / 16) (omega arith),
          (six (x / 4) (omega arith)).encoded,
          (six (x % 4 * 16 + y / 16) (omega arith)).encoded,
          (six (y % 16 * 4) (omega arith)).encoded,
        )

    pub decode_two_lem :
        (rest : Bytes)
        → decode_group
            (char_of (x / 4) ∷ char_of (x % 4 * 16 + y / 16) ∷ char_of (y % 16 * 4) ∷ b'=' ∷ rest)
          ≡ ok (x ∷ y ∷ [], b'=' ∷ rest)
    decode_two_lem rest =
        rw
          (
            decode_group_lem (x / 4) (x % 4 * 16 + y / 16) (omega arith) (omega arith),
            decode_third_lem (x / 4) (x % 4 * 16 + y / 16) (omega arith) (omega arith) (y % 16 * 4)
                (omega arith),
            decode_fourth-pad (x / 4 * 262144 + (x % 4 * 16 + y / 16) * 4096 + y % 16 * 4 * 64),
          )
          (ground arith)
