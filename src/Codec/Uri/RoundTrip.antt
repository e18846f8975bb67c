-- ===== src/Codec/Uri/RoundTrip.antt =====
-- Decoding gives back an ASCII text that was encoded; other texts cannot be encoded.
use prpc.Base.{
  ℕ, zero, suc, ◌+◌, ◌-◌, Bool, ltb, ◌&&◌, if◌then◌else◌, ◌*◌, ◌/◌, ◌%◌, ◌≡◌, ◌≤◌, ◌<◌, refl, ◌⊎◌,
  inl, inr, true, false, [], ◌∷◌, ◌++◌, Bytes, eqb, arith, Bool-cases,
}
use prpc.Base.Bits.{bit_and, bit_or, bit_and-0xf, bit_or-shift4}
use prpc.Base.Outcome.{Outcome, ok, fault, ◌>>=◌, Returns}
use prpc.Codec.Uri.{is_plain, signed, pos, hex, encode_char, encode, letter_to_hex, decode}

abbrev pub AllAscii : Bytes → Type 0
AllAscii [] = Unit {0}
AllAscii (c ∷ s) = (c < 128) × AllAscii s

-- The characters that may stand in an encoded text.
abbrev pub AllSafe : Bytes → Type 0
AllSafe [] = Unit {0}
AllSafe (c ∷ s) = ((is_plain c ≡ true) ⊎ (c ≡ b'%')) × AllSafe s

-- the character for a digit
digit : ℕ → ℕ
digit d = if ltb d 10 then b'0' + d else b'A' + (d - 10)

hex-digit : (d : ℕ) → d < 16 → hex (pos d) ≡ ok (digit d)
unfolding hex digit
hex-digit zero h = refl
hex-digit (suc zero) h = refl
hex-digit (suc (suc zero)) h = refl
hex-digit (suc (suc (suc zero))) h = refl
hex-digit (suc (suc (suc (suc zero)))) h = refl
hex-digit (suc (suc (suc (suc (suc zero))))) h = refl
hex-digit (suc (suc (suc (suc (suc (suc zero)))))) h = refl
hex-digit (suc (suc (suc (suc (suc (suc (suc zero))))))) h = refl
hex-digit (suc (suc (suc (suc (suc (suc (suc (suc zero)))))))) h = refl
hex-digit (suc (suc (suc (suc (suc (suc (suc (suc (suc zero))))))))) h = refl
hex-digit (suc (suc (suc (suc (suc (suc (suc (suc (suc (suc zero)))))))))) h = refl
hex-digit (suc (suc (suc (suc (suc (suc (suc (suc (suc (suc (suc zero))))))))))) h = refl
hex-digit (suc (suc (suc (suc (suc (suc (suc (suc (suc (suc (suc (suc zero)))))))))))) h = refl
hex-digit (suc (suc (suc (suc (suc (suc (suc (suc (suc (suc (suc (suc (suc zero))))))))))))) h =
    refl
hex-digit (suc (suc (suc (suc (suc (suc (suc (suc (suc (suc (suc (suc (suc (suc zero))))))))))))))
      h =
    refl
hex-digit
      (suc (suc (suc (suc (suc (suc (suc (suc (suc (suc (suc (suc (suc (suc (suc zero)))))))))))))))
      h =
    refl
hex-digit
      (suc
        (suc (suc (suc (suc (suc (suc (suc (suc (suc (suc (suc (suc (suc (suc (suc d))))))))))))))))
      h =
    absurd (omega (arith, h))

letter_to_hex-digit : (d : ℕ) → d < 16 → letter_to_hex (digit d) ≡ ok d
unfolding letter_to_hex digit
letter_to_hex-digit d h = ground arith

digit-plain : (d : ℕ) → d < 16 → is_plain (digit d) ≡ true
unfolding is_plain digit
digit-plain d h = ground arith

-- How a character below 128 that is not plain is encoded.
encode_char-escaped :
    (c : ℕ)
    → c < 128
    → is_plain c ≡ false
    → encode_char c ≡ ok (b'%' ∷ digit (c / 16) ∷ digit (bit_and c 0x0f) ∷ [])
unfolding encode_char signed
encode_char-escaped c h special =
    let small : ltb c 128 ≡ true = ground (arith, h) in
    rw
      (
        special,
        small,
        hex-digit (c / 16) (omega arith),
        hex-digit (bit_and c 0x0f) (omega (arith, bit_and-0xf c)),
      )
      refl

encode_char-plain : (c : ℕ) → is_plain c ≡ true → encode_char c ≡ ok (c ∷ [])
unfolding encode_char
encode_char-plain c plain = rw (plain) refl

-- A byte of 128 or more is not plain, and its high digit is a negative index.
encode_char-wide : (c : ℕ) → 128 ≤ c → encode_char c ≡ fault
unfolding encode_char signed is_plain hex
encode_char-wide c h =
    let wide : ltb c 128 ≡ false = ground (arith, h) in
    let special : is_plain c ≡ false = ground (arith, h) in rw (special, wide) refl

percent_not_plain : is_plain b'%' ≡ false
unfolding is_plain
percent_not_plain = refl

decode-plain :
    (c : ℕ) (uri out : Bytes)
    → eqb c b'%' ≡ false
    → decode uri ≡ ok out
    → decode (c ∷ uri) ≡ ok (c ∷ out)
unfolding decode
decode-plain c [] out h g = ground (arith, h, g)
decode-plain c (d ∷ []) out h g = rw h (ground (arith, g))
decode-plain c (d ∷ e ∷ uri) out h g = rw (h, g)

decode-escaped :
    (c : ℕ) (uri out : Bytes)
    → c < 128
    → decode uri ≡ ok out
    → decode (b'%' ∷ digit (c / 16) ∷ digit (bit_and c 0x0f) ∷ uri) ≡ ok (c ∷ out)
unfolding decode
decode-escaped c uri out h g =
    let low : bit_or (c / 16 * 16) (c % 16) % 256 ≡ c =
      omega (arith, bit_or-shift4 (c / 16) (c % 16)) in
    rw (
      bit_and-0xf c,
      letter_to_hex-digit (c / 16) (omega arith),
      letter_to_hex-digit (c % 16) (omega arith),
      g,
      low,
    )

-- Every ASCII text is encoded, into safe characters alone, and decoding gives it back.
pub decode-encode_ascii :
    (uri : Bytes) → AllAscii uri → Returns (encode uri) λ out. AllSafe out × (decode out ≡ ok uri)
unfolding encode encode_char
decode-encode_ascii [] h = ([], refl, (tt, unfold decode in refl))
decode-encode_ascii (c ∷ uri) h =
    let (out, run, (safe, back)) = decode-encode_ascii uri h.1 in
    elim (Bool-cases (is_plain c)) [
      | inl plain ↦ (
        c ∷ out,
        rw (encode_char-plain c plain, run) refl,
        ((inl plain, safe), decode-plain c out uri (ground (arith, plain, percent_not_plain)) back),
      )
      | inr special ↦ (
        b'%' ∷ digit (c / 16) ∷ digit (bit_and c 0x0f) ∷ out,
        rw (encode_char-escaped c h.0 special, run) refl,
        (
          (
            inr refl,
            (
              inl (digit-plain (c / 16) (omega arith)),
              (inl (digit-plain (bit_and c 0x0f) (omega (arith, bit_and-0xf c))), safe),
            ),
          ),
          decode-escaped c out uri h.0 back,
        ),
      )
    ]

bind_fault : (o : Outcome Bytes) → (o >>= λ out. fault >>= λ rest. ok (out ++ rest)) ≡ fault
bind_fault (ok out) = refl
bind_fault fault = refl

encode-faults : (before after : Bytes) (c : ℕ) → 128 ≤ c → encode (before ++ c ∷ after) ≡ fault
unfolding encode
encode-faults [] after c h = rw (encode_char-wide c h) refl
encode-faults (d ∷ before) after c h =
    rw (encode-faults before after c h) (bind_fault (encode_char d))

encode_char-ascii : (c : ℕ) → c < 128 → (out : Bytes) × (encode_char c ≡ ok out)
encode_char-ascii c h = elim (Bool-cases (is_plain c)) [
  | inl plain ↦ (c ∷ [], encode_char-plain c plain)
  | inr special ↦ (_, encode_char-escaped c h special)
]

-- Whether all bytes are below 128.
abbrev pub is_ascii : Bytes → Bool
is_ascii [] = true
is_ascii (c ∷ s) = ltb c 128 && is_ascii s

-- A text is encoded where all its bytes are below 128, and only there: of any other text the code
-- indexes its table of digits below 0.
pub encode_wide :
    (uri : Bytes)
    → ((is_ascii uri ≡ true) × ((out : Bytes) × (encode uri ≡ ok out)))
      ⊎ ((is_ascii uri ≡ false) × (encode uri ≡ fault))
encode_wide [] = inl (refl, ([], unfold encode in refl))
encode_wide (c ∷ uri) = elim (Bool-cases (ltb c 128)) [
  | inr wide ↦ inr (rw (wide) refl, encode-faults [] uri c (ground (arith, wide)))
  | inl small ↦ elim (encode_wide uri) [
    | inl (ascii, (out, run)) ↦
        let (first, here) = encode_char-ascii c (ground (arith, small)) in
        inl (rw (small) ascii, (first ++ out, (unfold encode in rw (here, run) refl)))
    | inr (other, run) ↦
        inr (rw (small) other, (unfold encode in rw (run) (bind_fault (encode_char c))))
  ]
]
