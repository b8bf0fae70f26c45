-- ===== src/Base/Masks.antt =====
-- Numbers below 2^k as sets of bits: extensionality, bounds, subsets and common members.
use Prim.Native.Nat.{ℕ, zero, suc, ◌/◌, ◌%◌, ◌^◌, ◌<◌, bit_and, bit_or, bit_and-bitwise}
use mathlib.Core.Path.{◌≡◌, refl, ap}
use mathlib.Core.Logic.{◌≢◌, ◌↔◌}
use native.Mathlib.Nat.{pow-suc}
use native.Mathlib.Decide.{ℕ_discrete}
use native.Mathlib.Omega.{arith}
use esp32s31_linux_function.Base.Bits.{
  test_bit, test_bit-le, bit_and_step, bit_or_step, test_bit-bit_and,
}

pub test_bit-zero : (i : ℕ) → test_bit i 0 ≡ 0
unfolding test_bit
test_bit-zero zero = refl
test_bit-zero (suc i) = test_bit-zero i

-- Two numbers below 2^k with the same bits are equal.
pub bits_ext :
    (k a b : ℕ) → a < 2 ^ k → b < 2 ^ k → ((i : ℕ) → i < k → test_bit i a ≡ test_bit i b) → a ≡ b
unfolding test_bit
bits_ext zero a b ha hb h = omega arith
bits_ext (suc k) a b ha hb h =
    let high : a / 2 ≡ b / 2 =
      bits_ext k (a / 2) (b / 2) (omega (arith, pow-suc 2 k)) (omega (arith, pow-suc 2 k))
        (λ i p. h (suc i) (omega arith)) in
    let low : a % 2 ≡ b % 2 = h 0 (omega arith) in omega arith

-- The operations stay below 2^k.
pub bit_and-lt : (k a b : ℕ) → a < 2 ^ k → bit_and a b < 2 ^ k
bit_and-lt zero a b h = let e : a ≡ 0 = omega arith in rw e (omega (arith, bit_and-bitwise 0 b))
bit_and-lt (suc k) a b h = omega (
  arith,
  pow-suc 2 k,
  bit_and_step a b,
  bit_and-lt k (a / 2) (b / 2) (omega (arith, pow-suc 2 k)),
)

pub bit_or-lt : (k a b : ℕ) → a < 2 ^ k → b < 2 ^ k → bit_or a b < 2 ^ k
bit_or-lt zero a b h g =
    let e : a ≡ 0 = omega arith in let f : b ≡ 0 = omega arith in rw (e, f) (omega arith)
bit_or-lt (suc k) a b h g = omega (
  arith,
  pow-suc 2 k,
  bit_or_step a b,
  bit_or-lt k (a / 2) (b / 2) (omega (arith, pow-suc 2 k)) (omega (arith, pow-suc 2 k)),
)

-- A number that is not 0 has a bit.
pub some_bit : (k x : ℕ) → x < 2 ^ k → x ≢ 0 → (i : ℕ) × (i < k) × (test_bit i x ≡ 1)
unfolding test_bit
some_bit zero x h ne = absurd (omega arith)
some_bit (suc k) x h ne = elim (ℕ_discrete (x % 2) 1) [
  | yes e ↦ (0, omega arith, e)
  | no even ↦
      let (i, p, q) = some_bit k (x / 2) (omega (arith, pow-suc 2 k)) (omega arith) in
      (suc i, omega arith, q)
]

-- `have & want == want` says that every bit of `want` is in `have`.
pub bit_and-eq_right :
    (k have want : ℕ)
    → have < 2 ^ k
    → want < 2 ^ k
    → (bit_and have want ≡ want) ↔ ((i : ℕ) → i < k → test_bit i want ≡ 1 → test_bit i have ≡ 1)
bit_and-eq_right k have want hh hw = (there, back)
  where
    there : bit_and have want ≡ want → (i : ℕ) → i < k → test_bit i want ≡ 1 → test_bit i have ≡ 1
    there e i p q =
        omega (arith, ap (test_bit i) e, test_bit-bit_and i have want, test_bit-le i have, q)

    back : ((i : ℕ) → i < k → test_bit i want ≡ 1 → test_bit i have ≡ 1) → bit_and have want ≡ want
    back h = bits_ext k (bit_and have want) want (bit_and-lt k have want hh) hw λ i p.
        elim (ℕ_discrete (test_bit i want) 1) [
          | yes e ↦ omega (arith, test_bit-bit_and i have want, h i p e)
          | no ne ↦ omega (arith, test_bit-bit_and i have want, test_bit-le i want)
        ]

-- `have & want != 0` says that they have a bit in common.
pub bit_and-ne_zero :
    (k have want : ℕ)
    → have < 2 ^ k
    → (bit_and have want ≢ 0) ↔ ((i : ℕ) × (i < k) × (test_bit i have ≡ 1) × (test_bit i want ≡ 1))
bit_and-ne_zero k have want hh = (there, back)
  where
    there :
        bit_and have want ≢ 0 → (i : ℕ) × (i < k) × (test_bit i have ≡ 1) × (test_bit i want ≡ 1)
    there ne =
        let (i, p, q) = some_bit k (bit_and have want) (bit_and-lt k have want hh) ne in
        (
          i,
          p,
          omega (arith, test_bit-bit_and i have want, test_bit-le i have, q),
          omega (arith, test_bit-bit_and i have want, test_bit-le i want, q),
        )

    back : (i : ℕ) × (i < k) × (test_bit i have ≡ 1) × (test_bit i want ≡ 1) → bit_and have want ≢ 0
    back (i, p, q, r) e =
        omega (arith, ap (test_bit i) e, test_bit-zero i, test_bit-bit_and i have want, q, r)
