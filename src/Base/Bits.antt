-- ===== src/Base/Bits.antt =====
-- `&`, `|` and shifts of machine words, read off their lowest digit. The masks that the codecs use
-- are remainders and quotients by powers of two.
pub use Prim.Native.Nat.{bit_and, bit_or, bit_xor}
use Prim.Native.Nat.{
  ℕ, zero, suc, ◌+◌, ◌-◌, ◌*◌, ◌/◌, ◌%◌, ◌≤◌, ◌<◌, min, max, digits, bitwise, bit_and-bitwise,
  bit_or-bitwise, bit_xor-bitwise, differ,
}
use mathlib.Core.Path.{◌≡◌, refl, ap}
use native.Mathlib.Omega.{arith}

-- Any two amounts of fuel that cover the first operand give the same digits.
module _ (base : ℕ → ℕ) (op : ℕ → ℕ → ℕ) where
  same_digits : (f g x y : ℕ) → x ≤ f → x ≤ g → digits base op f x y ≡ digits base op g x y
  same_digits (suc f) (suc g) (suc x) y h k =
      ap (λ (d : ℕ). d * 2 + op (suc x % 2) (y % 2))
        (same_digits f g (suc x / 2) (y / 2) (omega arith) (omega arith))
  same_digits (suc f) zero (suc x) y h k = absurd (omega arith)
  same_digits zero g (suc x) y h k = absurd (omega arith)
  same_digits (suc f) (suc g) zero y h k = refl
  same_digits (suc f) zero zero y h k = refl
  same_digits zero (suc g) zero y h k = refl
  same_digits zero zero zero y h k = refl

  lowest_digit :
      (x y : ℕ)
      → bitwise base op (suc x) y ≡ bitwise base op (suc x / 2) (y / 2) * 2 + op (suc x % 2) (y % 2)
  lowest_digit x y =
      ap (λ (d : ℕ). d * 2 + op (suc x % 2) (y % 2))
        (same_digits x (suc x / 2) (suc x / 2) (y / 2) (omega arith) (omega arith))

pub bit_and_low : (x y : ℕ) → bit_and x y ≡ bit_and (x / 2) (y / 2) * 2 + min (x % 2) (y % 2)
bit_and_low zero y = omega (arith, bit_and-bitwise 0 y, bit_and-bitwise 0 (y / 2))
bit_and_low (suc x) y = omega (
  arith,
  bit_and-bitwise (suc x) y,
  bit_and-bitwise (suc x / 2) (y / 2),
  lowest_digit (λ b. 0) min x y,
)

pub bit_or_low : (x y : ℕ) → bit_or x y ≡ bit_or (x / 2) (y / 2) * 2 + max (x % 2) (y % 2)
bit_or_low zero y = omega (arith, bit_or-bitwise 0 y, bit_or-bitwise 0 (y / 2))
bit_or_low (suc x) y = omega (
  arith,
  bit_or-bitwise (suc x) y,
  bit_or-bitwise (suc x / 2) (y / 2),
  lowest_digit (λ b. b) max x y,
)

no_bits : (f x : ℕ) → x ≤ f → (bit_and x 0 ≡ 0) × (bit_or x 0 ≡ x)
no_bits f zero h = (refl, refl)
no_bits zero (suc x) h = absurd (omega arith)
no_bits (suc f) (suc x) h =
    let rest = no_bits f (suc x / 2) (omega arith) in
    (omega (arith, bit_and_low (suc x) 0, rest.0), omega (arith, bit_or_low (suc x) 0, rest.1))

pub bit_and-zero : (x : ℕ) → bit_and x 0 ≡ 0
bit_and-zero x = (no_bits x x (omega arith)).0

pub bit_or-zero : (x : ℕ) → bit_or x 0 ≡ x
bit_or-zero x = (no_bits x x (omega arith)).1

-- One step along a mask of ones, and one along the zeros below a mask.
mask_one : (x m : ℕ) → bit_and x (m * 2 + 1) ≡ bit_and (x / 2) m * 2 + x % 2
mask_one x m = ground (
  arith,
  bit_and_low x (m * 2 + 1),
  ap (bit_and (x / 2)) (let e : (m * 2 + 1) / 2 ≡ m = omega arith in e),
)

mask_zero : (x m : ℕ) → bit_and x (m * 2) ≡ bit_and (x / 2) m * 2
mask_zero x m =
    ground (
      arith,
      bit_and_low x (m * 2),
      ap (bit_and (x / 2)) (let e : m * 2 / 2 ≡ m = omega arith in e),
    )

pub bit_and-1 : (x : ℕ) → bit_and x 1 ≡ x % 2
bit_and-1 x = omega (arith, mask_one x 0, bit_and-zero (x / 2))

pub bit_and-3 : (x : ℕ) → bit_and x 3 ≡ x % 4
bit_and-3 x = omega (arith, mask_one x 1, bit_and-1 (x / 2))

pub bit_and-0xf : (x : ℕ) → bit_and x 0xf ≡ x % 16
bit_and-0xf x = omega (arith, mask_one x 7, mask_one (x / 2) 3, bit_and-3 (x / 2 / 2))

pub bit_and-0x3f : (x : ℕ) → bit_and x 0x3f ≡ x % 64
bit_and-0x3f x = omega (arith, mask_one x 31, mask_one (x / 2) 15, bit_and-0xf (x / 2 / 2))

pub bit_and-0xff : (x : ℕ) → bit_and x 0xff ≡ x % 256
bit_and-0xff x = omega (arith, mask_one x 127, mask_one (x / 2) 63, bit_and-0x3f (x / 2 / 2))

pub bit_and-0xfc : (x : ℕ) → x < 256 → bit_and x 0xfc ≡ x / 4 * 4
bit_and-0xfc x h = omega (arith, mask_zero x 126, mask_zero (x / 2) 63, bit_and-0x3f (x / 2 / 2))

-- `x & (m << 4)`
mask_shift4 : (x m : ℕ) → bit_and x (m * 16) ≡ bit_and (x / 16) m * 16
mask_shift4 x m = ground (
  arith,
  mask_zero x (m * 8),
  mask_zero (x / 2) (m * 4),
  mask_zero (x / 2 / 2) (m * 2),
  mask_zero (x / 2 / 2 / 2) m,
)

pub bit_and-0xf0 : (x : ℕ) → x < 256 → bit_and x 0xf0 ≡ x / 16 * 16
bit_and-0xf0 x h = omega (arith, mask_shift4 x 0xf, bit_and-0xf (x / 16))

pub bit_and-0xff00 : (x : ℕ) → bit_and x 0xff00 ≡ x / 256 % 256 * 256
bit_and-0xff00 x =
    ground (arith, mask_shift4 x 0xff0, mask_shift4 (x / 16) 0xff, bit_and-0xff (x / 16 / 16))

pub bit_and-0xff0000 : (x : ℕ) → bit_and x 0xff0000 ≡ x / 65536 % 256 * 65536
bit_and-0xff0000 x =
    ground (arith, mask_shift4 x 0xff000, mask_shift4 (x / 16) 0xff00, bit_and-0xff00 (x / 16 / 16))

-- `(x << k) | y` where `y` fits the `k` bits
pub bit_or-shift1 : (x y : ℕ) → y < 2 → bit_or (x * 2) y ≡ x * 2 + y
bit_or-shift1 x y h = ground (
  arith,
  bit_or_low (x * 2) y,
  bit_or-zero x,
  ap (λ (a : ℕ). bit_or a (y / 2)) (let e : x * 2 / 2 ≡ x = omega arith in e),
  ap (bit_or x) (let e : y / 2 ≡ 0 = omega arith in e),
)

bit_or-double : (x y : ℕ) → bit_or (x * 2) y ≡ bit_or x (y / 2) * 2 + y % 2
bit_or-double x y = ground (
  arith,
  bit_or_low (x * 2) y,
  ap (λ (a : ℕ). bit_or a (y / 2)) (let e : x * 2 / 2 ≡ x = omega arith in e),
)

pub bit_or-shift2 : (x y : ℕ) → y < 4 → bit_or (x * 4) y ≡ x * 4 + y
bit_or-shift2 x y h = ground (arith, bit_or-double (x * 2) y, bit_or-shift1 x (y / 2))

pub bit_or-shift4 : (x y : ℕ) → y < 16 → bit_or (x * 16) y ≡ x * 16 + y
bit_or-shift4 x y h =
    ground
      (arith, bit_or-double (x * 8) y, bit_or-double (x * 4) (y / 2), bit_or-shift2 x (y / 2 / 2))

-- The lowest bit turned over.
bit_xor_low : (x y : ℕ) → bit_xor x y ≡ bit_xor (x / 2) (y / 2) * 2 + differ (x % 2) (y % 2)
bit_xor_low zero y = omega (arith, bit_xor-bitwise 0 y, bit_xor-bitwise 0 (y / 2))
bit_xor_low (suc x) y = omega (
  arith,
  bit_xor-bitwise (suc x) y,
  bit_xor-bitwise (suc x / 2) (y / 2),
  lowest_digit (λ b. b) differ x y,
)

differ-zero : (d : ℕ) → differ d 0 ≡ d
differ-zero zero = refl
differ-zero (suc d) = refl

differ-one : (d : ℕ) → d < 2 → differ d 1 ≡ 1 - d
differ-one zero h = refl
differ-one (suc zero) h = refl
differ-one (suc (suc d)) h = absurd (omega arith)

bit_xor_nothing : (f x : ℕ) → x ≤ f → bit_xor x 0 ≡ x
bit_xor_nothing f zero h = refl
bit_xor_nothing zero (suc x) h = absurd (omega arith)
bit_xor_nothing (suc f) (suc x) h = omega (
  arith,
  bit_xor_low (suc x) 0,
  bit_xor_nothing f (suc x / 2) (omega arith),
  differ-zero (suc x % 2),
)

pub bit_xor-1 : (x : ℕ) → bit_xor x 1 ≡ x / 2 * 2 + (1 - x % 2)
bit_xor-1 x = omega (
  arith,
  bit_xor_low x 1,
  bit_xor_nothing (x / 2) (x / 2) (omega arith),
  differ-one (x % 2) (omega arith),
)
