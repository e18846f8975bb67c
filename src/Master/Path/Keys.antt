-- ===== src/Master/Path/Keys.antt =====
-- The keys that `master_gen` makes: ten decimal digits behind '_'.
use prpc.Base.{
  ℕ, zero, suc, ◌+◌, ◌-◌, ◌*◌, ◌/◌, ◌%◌, ◌^◌, ◌≤◌, ◌<◌, ◌≡◌, refl, ap, ◌∙◌, inl, inr, true, [], ◌∷◌,
  arith, Bytes, ltb, length, Bool-cases,
}
use native.Mathlib.Nat.{pow-suc}
use prpc.Master.Path.Split.{IsSegment, slash_free}
use prpc.Master.Path.{digits, pad, gen_key}

-- The number that a run of digits spells behind `acc`.
abbrev pub value_of : ℕ → Bytes → ℕ
value_of acc [] = acc
value_of acc (c ∷ s) = value_of (acc * 10 + (c - b'0')) s

abbrev pub AllDigits : Bytes → Type 0
AllDigits [] = Unit {0}
AllDigits (c ∷ s) = (b'0' ≤ c) × (c ≤ b'9') × AllDigits s

-- A text of digits is read back as `value_of`.
digits_value : (f n : ℕ) (rest : Bytes) → n < f → value_of 0 (digits f n rest) ≡ value_of n rest
unfolding digits
digits_value zero n rest h = absurd (omega arith)
digits_value (suc f) n rest h = elim (Bool-cases (ltb n 10)) [
  | inl e ↦ rw e (ap (λ k. value_of k rest) (omega arith))
  | inr e ↦
      let small : n / 10 < f = ground (arith, e) in
      rw e (
        digits_value f (n / 10) ((b'0' + n % 10) ∷ rest) small
        ∙ ap (λ k. value_of k rest) (omega arith))
]

digits_all : (f n : ℕ) (rest : Bytes) → n < f → AllDigits rest → AllDigits (digits f n rest)
unfolding digits
digits_all zero n rest h a = absurd (omega arith)
digits_all (suc f) n rest h a = elim (Bool-cases (ltb n 10)) [
  | inl e ↦ rw e (omega arith, ground (arith, e), a)
  | inr e ↦ rw e (
      digits_all f (n / 10) ((b'0' + n % 10) ∷ rest) (ground (arith, e))
        (omega arith, omega arith, a))
]

-- A number below 10 ^ (d + 1) has at most d + 1 digits.
length-digits :
    (f d n : ℕ) (rest : Bytes)
    → n < f
    → n < 10 ^ suc d
    → length (digits f n rest) ≤ suc d + length rest
unfolding digits
length-digits zero d n rest h g = absurd (omega arith)
length-digits (suc f) zero n rest h g = ground (arith, g)
length-digits (suc f) (suc d) n rest h g =
    let small : n / 10 < 10 ^ suc d = omega (arith, pow-suc 10 (suc d)) in
    ground (arith, length-digits f d (n / 10) ((b'0' + n % 10) ∷ rest), small)

length-pad : (f : ℕ) (key : Bytes) → length key ≤ 10 → 10 ≤ f + length key → length (pad f key) ≡ 10
unfolding pad
length-pad zero key h g = omega arith
length-pad (suc f) key h g = ground (arith, length-pad f (b'0' ∷ key))

pad_all : (f : ℕ) (key : Bytes) → AllDigits key → AllDigits (pad f key)
unfolding pad
pad_all zero key a = a
pad_all (suc f) key a = ground (arith, a, pad_all f (b'0' ∷ key))

pad_value : (f : ℕ) (key : Bytes) → value_of 0 (pad f key) ≡ value_of 0 key
unfolding pad
pad_value zero key = refl
pad_value (suc f) key = ground (arith, pad_value f (b'0' ∷ key))

AllDigits-slash_free : (s : Bytes) → AllDigits s → slash_free s ≡ true
AllDigits-slash_free [] a = refl
AllDigits-slash_free (c ∷ s) a = ground (arith, a, AllDigits-slash_free s)

-- The key of any counter below `10 ^ 10`, so of any `int`, has 11 characters: ten rounds of padding
-- are enough, and the code's test for a longer key is not met.
pub gen_key-length : (n : ℕ) → n < 10 ^ 10 → length (gen_key n) ≡ 11
unfolding gen_key
gen_key-length n h =
    let short : length (digits (suc n) n []) ≤ 10 = length-digits (suc n) 9 n [] (omega arith) h in
    omega (arith, length-pad 10 (digits (suc n) n []) short (omega arith))

pub gen_key-IsSegment : (n : ℕ) → IsSegment (gen_key n)
unfolding gen_key
gen_key-IsSegment n = record {
  nonempty = λ e. cc;
  free =
      ground
        (arith, AllDigits-slash_free _ (pad_all 10 _ (digits_all (suc n) n [] (omega arith) tt)));
}

abbrev pub number_of : Bytes → ℕ
number_of [] = 0
number_of (c ∷ s) = value_of 0 s

-- The number that a generated key spells is the counter's value that it was made from.
pub number_of-gen_key : (n : ℕ) → number_of (gen_key n) ≡ n
unfolding gen_key
number_of-gen_key n = pad_value 10 (digits (suc n) n []) ∙ digits_value (suc n) n [] (omega arith)
