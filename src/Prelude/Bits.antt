-- ===== src/Prelude/Bits.antt =====
-- The bits of a native number, and the bitwise operations read bit by bit. An `i64` that is used as
-- a set of flags is the number of its bit pattern; `!x` flips its 64 bits.
use Prim.Native.Nat.{
  ℕ, zero, suc, ◌+◌, ◌-◌, ◌*◌, ◌/◌, ◌%◌, ◌≤◌, ◌<◌, min, max, bit_and, bit_or, digits, bitwise,
  bit_and-bitwise, bit_or-bitwise,
}
use native.Mathlib.Nat.{le_refl}
use native.Mathlib.Omega.{arith}
use mathlib.Core.Path.{◌≡◌, refl, ap}
use mathlib.Core.Logic.{◌↔◌}

-- The digits of a bitwise operation do not depend on the fuel, once it suffices.
module _ (z : ℕ → ℕ) (f : ℕ → ℕ → ℕ) where
  digits_enough : (a b n m : ℕ) → a ≤ m → a ≤ n → digits z f n a b ≡ digits z f m a b
  digits_enough (suc a) b zero m q p = absurd (omega arith)
  digits_enough (suc a) b (suc n) zero q p = absurd (omega arith)
  digits_enough (suc a) b (suc n) (suc m) q p =
      let rest = digits_enough (suc a / 2) (b / 2) n m in rw (rest (omega arith) (omega arith))
  digits_enough zero b zero zero q p = refl
  digits_enough zero b (suc n) zero q p = refl
  digits_enough zero b zero (suc m) q p = refl
  digits_enough zero b (suc n) (suc m) q p = refl

  lowest_digit :
      (a b : ℕ)
      → bitwise z f (suc a) b ≡ bitwise z f (suc a / 2) (b / 2) * 2 + f (suc a % 2) (b % 2)
  lowest_digit a b =
      omega (arith, digits_enough (suc a / 2) (b / 2) a (suc a / 2) (le_refl _) (omega arith))

pub bit_or_halves : (a b : ℕ) → bit_or a b ≡ bit_or (a / 2) (b / 2) * 2 + max (a % 2) (b % 2)
bit_or_halves zero b = simp bit_or-bitwise (omega arith)
bit_or_halves (suc a) b = simp bit_or-bitwise (lowest_digit (λ y. y) max a b)

pub bit_and_halves : (a b : ℕ) → bit_and a b ≡ bit_and (a / 2) (b / 2) * 2 + min (a % 2) (b % 2)
bit_and_halves zero b = simp bit_and-bitwise (omega arith)
bit_and_halves (suc a) b = simp bit_and-bitwise (lowest_digit (λ y. 0) min a b)

-- Bit `i` of `x`, 0 or 1.
abbrev pub bit : ℕ → ℕ → ℕ
bit x zero = x % 2
bit x (suc i) = bit (x / 2) i

-- `!x` on `w` bits.
unfoldable pub bit_not : ℕ → ℕ → ℕ
bit_not zero x = 0
bit_not (suc w) x = bit_not w (x / 2) * 2 + (1 - x % 2)

pub bit-le-one : (x i : ℕ) → bit x i ≤ 1
bit-le-one x zero = omega arith
bit-le-one x (suc i) = bit-le-one (x / 2) i

pub bit-bit_or : (a b i : ℕ) → bit (bit_or a b) i ≡ max (bit a i) (bit b i)
bit-bit_or a b zero = omega (arith, bit_or_halves a b)
bit-bit_or a b (suc i) =
    let half : bit_or a b / 2 ≡ bit_or (a / 2) (b / 2) = omega (arith, bit_or_halves a b) in
    rw half (bit-bit_or (a / 2) (b / 2) i)

pub bit-bit_and : (a b i : ℕ) → bit (bit_and a b) i ≡ min (bit a i) (bit b i)
bit-bit_and a b zero = omega (arith, bit_and_halves a b)
bit-bit_and a b (suc i) =
    let half : bit_and a b / 2 ≡ bit_and (a / 2) (b / 2) = omega (arith, bit_and_halves a b) in
    rw half (bit-bit_and (a / 2) (b / 2) i)

pub bit-bit_not : (w x i : ℕ) → i < w → bit (bit_not w x) i ≡ 1 - bit x i
unfolding bit_not
bit-bit_not zero x i h = absurd (omega arith)
bit-bit_not (suc w) x zero h = omega arith
bit-bit_not (suc w) x (suc i) h =
    let half : (bit_not w (x / 2) * 2 + (1 - x % 2)) / 2 ≡ bit_not w (x / 2) = omega arith in
    rw half (bit-bit_not w (x / 2) i (omega arith))

-- A number with no bit set is zero.
eq_zero_of_bits : (fuel m : ℕ) → m ≤ fuel → ((i : ℕ) → bit m i ≤ 0) → m ≡ 0
eq_zero_of_bits zero m h k = omega arith
eq_zero_of_bits (suc fuel) zero h k = refl
eq_zero_of_bits (suc fuel) (suc m) h k =
    omega (arith, k 0, eq_zero_of_bits fuel (suc m / 2) (omega arith) (λ i. k (suc i)))

bit-zero : (i : ℕ) → bit 0 i ≡ 0
bit-zero zero = refl
bit-zero (suc i) = bit-zero i

bit_and-zero : (a : ℕ) → bit_and a 0 ≡ 0
bit_and-zero a =
    eq_zero_of_bits (bit_and a 0) (bit_and a 0) (le_refl _)
      (λ i. omega (arith, bit-bit_and a 0 i, bit-zero i))

bit_and_mask : (fuel a m : ℕ) → m ≤ fuel → ((i : ℕ) → bit m i ≤ bit a i) → bit_and a m ≡ m
bit_and_mask zero a zero h k = bit_and-zero a
bit_and_mask zero a (suc m) h k = absurd (omega arith)
bit_and_mask (suc fuel) a m h k = omega (
  arith,
  bit_and_halves a m,
  k 0,
  bit_and_mask fuel (a / 2) (m / 2) (omega arith) (λ i. k (suc i)),
)

-- A mask is contained in a number exactly when each of its bits is set there.
pub bit_and-eq-mask_iff : (a m : ℕ) → (bit_and a m ≡ m) ↔ ((i : ℕ) → bit m i ≤ bit a i)
bit_and-eq-mask_iff a m = (
  λ e i. omega (arith, bit-bit_and a m i, ap (λ (t : ℕ). bit t i) e),
  bit_and_mask m a m (le_refl _),
)
