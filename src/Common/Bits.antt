-- ===== src/Common/Bits.antt =====
-- `|` on numbers whose bits do not meet, and masks of low bits.
use Prim.Native.Nat.{
  ℕ, zero, suc, ◌+◌, ◌*◌, ◌/◌, ◌%◌, ◌≤◌, ◌<◌, ◌^◌, min, max, bit_and, bit_or, digits,
  bit_or-bitwise, bit_and-bitwise,
}
use mathlib.Core.Path.{◌≡◌, refl, ap, ◌∙◌}
use native.Mathlib.Nat.{pow-suc}
use mathlib.Core.Bool.{Bool, true, ◌&&◌}
use cppvless.Common.Tests.{◌==◌}
use native.Mathlib.Omega.{arith}

-- Both operations go by the binary digits: `z` is the result once the first number has run out,
-- and `f` is the operation on two digits. The count of digits to go does not matter.
module _ (z : ℕ → ℕ) (f : ℕ → ℕ → ℕ) where
  digits_count :
      (left right count count' : ℕ)
      → left ≤ count
      → left ≤ count'
      → digits z f count left right ≡ digits z f count' left right
  digits_count (suc l) right (suc c) (suc c') h h' =
      let half : suc l / 2 ≤ c = omega arith in
      let half' : suc l / 2 ≤ c' = omega arith in
      omega (arith, digits_count (suc l / 2) (right / 2) c c' half half')
  digits_count (suc l) right (suc c) zero h h' = absurd (omega arith)
  digits_count (suc l) right zero c' h h' = absurd (omega arith)
  digits_count zero right (suc c) (suc c') h h' = refl
  digits_count zero right (suc c) zero h h' = refl
  digits_count zero right zero (suc c') h h' = refl
  digits_count zero right zero zero h h' = refl

-- One binary digit off both numbers.
and_step : (b a : ℕ) → min (a % 2) (b % 2) + 2 * bit_and (a / 2) (b / 2) ≡ bit_and a b
and_step b (suc a) =
    let halves = bit_and-bitwise (suc a / 2) (b / 2) in
    let same =
      digits_count (λ b. 0) min (suc a / 2) (b / 2) a (suc a / 2) (omega arith) (omega arith) in
    omega (arith, halves, same, bit_and-bitwise (suc a) b)
and_step b zero = omega (arith, bit_and-bitwise 0 b, bit_and-bitwise 0 (b / 2))

bit_and-zero_count : (a bound : ℕ) → a ≤ bound → bit_and a 0 ≡ 0
bit_and-zero_count zero bound le = refl
bit_and-zero_count (suc a) (suc bound) le =
    let half = bit_and-zero_count (suc a / 2) bound (omega (arith, le)) in
    omega (arith, half, and_step 0 (suc a))
bit_and-zero_count (suc a) zero le = absurd (omega arith)

bit_and-zero : (a : ℕ) → bit_and a 0 ≡ 0
bit_and-zero a = bit_and-zero_count a a (omega arith)

pub low_three : (a : ℕ) → bit_and a 0x07 ≡ a % 8
low_three a =
    omega (
      arith,
      and_step 7 a,
      and_step 3 (a / 2),
      and_step 1 (a / 2 / 2),
      bit_and-zero (a / 2 / 2 / 2),
    )

zero-bit_or : (b : ℕ) → bit_or 0 b ≡ b
zero-bit_or b = bit_or-bitwise 0 b

bit_or_step : (a b : ℕ) → bit_or a b ≡ bit_or (a / 2) (b / 2) * 2 + max (a % 2) (b % 2)
bit_or_step zero b = omega (arith, zero-bit_or b, zero-bit_or (b / 2))
bit_or_step (suc a) b = omega (
  arith,
  bit_or-bitwise (suc a) b,
  bit_or-bitwise (suc a / 2) (b / 2),
  digits_count (λ b. b) max (suc a / 2) (b / 2) a (suc a / 2) (omega arith) (omega arith),
)

bit_or-zero_count : (n a : ℕ) → a ≤ n → bit_or a 0 ≡ a
bit_or-zero_count n zero h = refl
bit_or-zero_count zero (suc a) h = absurd (omega arith)
bit_or-zero_count (suc n) (suc a) h =
    omega (arith, bit_or_step (suc a) 0, bit_or-zero_count n (suc a / 2) (omega arith))

-- One digit: an even number has none there.
or_double : (a b : ℕ) → bit_or (2 * a) b ≡ bit_or a (b / 2) * 2 + b % 2
or_double a b = rw (bit_or_step (2 * a) b, half) (omega arith)
  where
    half : 2 * a / 2 ≡ a
    half = omega arith

pow_double : (k a : ℕ) → a * 2 ^ suc k ≡ 2 * (a * 2 ^ k)
pow_double k a = omega (arith, ap (λ (t : ℕ). a * t) (pow-suc 2 k))

-- The low `k` digits of `a * 2 ^ k` are free.
pub or_shift : (k a b : ℕ) → b < 2 ^ k → bit_or (a * 2 ^ k) b ≡ a * 2 ^ k + b
or_shift zero a b h =
    let e : b ≡ 0 = omega arith in
    rw e (bit_or-zero_count (a * 1) (a * 1) (omega arith) ∙ omega arith)
or_shift (suc k) a b h =
    rw (pow_double k a)
      (or_double (a * 2 ^ k) b ∙ omega (arith, or_shift k a (b / 2) (omega (arith, pow-suc 2 k))))

pub or_byte : (a b : ℕ) → b < 256 → bit_or (a * 256) b ≡ a * 256 + b
or_byte a b h = or_shift 8 a b h

-- A field of 16 bits is read from its two bytes.
pub or_high_low : (n : ℕ) → n < 65536 → bit_or (n / 256 % 256 * 256) (n % 256) ≡ n
or_high_low n h = or_byte (n / 256 % 256) (n % 256) (omega arith) ∙ omega arith

low_or_double : (a b : ℕ) → bit_or b (2 * a) ≡ bit_or (b / 2) a * 2 + b % 2
low_or_double a b = rw (bit_or_step b (2 * a), half) (omega arith)
  where
    half : 2 * a / 2 ≡ a
    half = omega arith

zero-bit_or_left : (b x : ℕ) → b ≡ 0 → bit_or b x ≡ x
zero-bit_or_left b x e = rw e (zero-bit_or x)

-- The same with the operands exchanged, as in `value |= group << shift`.
pub or_above : (k a b : ℕ) → b < 2 ^ k → bit_or b (a * 2 ^ k) ≡ b + a * 2 ^ k
or_above zero a b h = zero-bit_or_left b (a * 1) (omega arith) ∙ omega arith
or_above (suc k) a b h =
    rw (pow_double k a) (
      low_or_double (a * 2 ^ k) b
      ∙ omega (arith, or_above k a (b / 2) (omega (arith, pow-suc 2 k))))

-- A table of all bytes, checked by evaluation.
same_below : ℕ → (ℕ → ℕ) → (ℕ → ℕ) → Bool
same_below zero f g = true
same_below (suc n) f g = f n == g n && same_below n f g

same_below_sound : (n : ℕ) (f g : ℕ → ℕ) (x : ℕ) → same_below n f g ≡ true → x < n → f x ≡ g x
unfolding same_below
same_below_sound zero f g x h lt = absurd (omega arith)
same_below_sound (suc n) f g x h lt = ground (arith, same_below_sound n f g x)

pub low_seven : (b : ℕ) → b < 256 → bit_and b 0x7f ≡ b % 128
unfolding same_below
low_seven b h = same_below_sound 256 (λ x. bit_and x 0x7f) (λ x. x % 128) b refl h

pub top_bit : (b : ℕ) → b < 256 → bit_and b 0x80 ≡ b / 128 * 128
unfolding same_below
top_bit b h = same_below_sound 256 (λ x. bit_and x 0x80) (λ x. x / 128 * 128) b refl h
