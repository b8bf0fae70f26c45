-- ===== src/Base/Bits.antt =====
-- Bits of native numbers: the laws of `&`, `|` and `~` on `uint32_t`, one bit at a time.
use Prim.Native.Nat.{
  ℕ, zero, suc, ◌+◌, ◌-◌, ◌*◌, ◌/◌, ◌%◌, ◌^◌, ◌≤◌, ◌<◌, min, max, bit_and, bit_or, digits,
  bit_and-bitwise, bit_or-bitwise,
}
use mathlib.Core.Path.{◌≡◌, refl, sym, ap, ◌∙◌}
use native.Mathlib.Nat.{pow-suc, one-le-pow}
use native.Mathlib.Omega.{arith}
use esp32s31_linux_function.Base.Tests.{u32_mod}

-- Bit `i` of a number, 0 or 1.
unfoldable pub test_bit : ℕ → ℕ → ℕ
test_bit zero x = x % 2
test_bit (suc i) x = test_bit i (x / 2)

-- `~x` on `uint32_t`
abbrev pub not32 : ℕ → ℕ
not32 x = u32_mod - 1 - x

pub test_bit-le : (i x : ℕ) → test_bit i x ≤ 1
unfolding test_bit
test_bit-le zero x = omega arith
test_bit-le (suc i) x = test_bit-le i (x / 2)

-- The native operations recurse on a number of steps; the first operand is steps enough.
module _ (rest : ℕ → ℕ) (digit : ℕ → ℕ → ℕ) where
  spare_step : (n x y : ℕ) → x ≤ n → digits rest digit (suc n) x y ≡ digits rest digit n x y
  spare_step zero x y fits = let none_left : x ≡ 0 = omega arith in rw none_left refl
  spare_step (suc n) zero y fits = refl
  spare_step (suc n) (suc x) y fits = omega (arith, spare_step n (suc x / 2) (y / 2) (omega arith))

  spare_steps : (n x y : ℕ) → digits rest digit (n + x) x y ≡ digits rest digit x x y
  spare_steps zero x y = let no_more : 0 + x ≡ x = omega arith in rw no_more refl
  spare_steps (suc n) x y =
      let one_more : suc n + x ≡ suc (n + x) = omega arith in
      rw one_more (spare_step (n + x) x y (omega arith) ∙ spare_steps n x y)

  halved :
      (x y : ℕ) → digits rest digit x (suc x / 2) y ≡ digits rest digit (suc x / 2) (suc x / 2) y
  halved x y =
      let spared : x - suc x / 2 + suc x / 2 ≡ x = omega arith in
      ap (λ n. digits rest digit n (suc x / 2) y) (sym spared)
      ∙ spare_steps (x - suc x / 2) (suc x / 2) y

pub bit_and_step : (x y : ℕ) → bit_and x y ≡ bit_and (x / 2) (y / 2) * 2 + min (x % 2) (y % 2)
bit_and_step zero y = rw (bit_and-bitwise 0 y, bit_and-bitwise 0 (y / 2)) (omega arith)
bit_and_step (suc x) y =
    let whole = bit_and-bitwise (suc x) y in
    let halves = bit_and-bitwise (suc x / 2) (y / 2) in
    omega (arith, halved (λ b. zero) min x (y / 2), whole, halves)

pub bit_or_step : (x y : ℕ) → bit_or x y ≡ bit_or (x / 2) (y / 2) * 2 + max (x % 2) (y % 2)
bit_or_step zero y = rw (bit_or-bitwise 0 y, bit_or-bitwise 0 (y / 2)) (omega arith)
bit_or_step (suc x) y =
    let whole = bit_or-bitwise (suc x) y in
    let halves = bit_or-bitwise (suc x / 2) (y / 2) in
    omega (arith, halved (λ b. b) max x (y / 2), whole, halves)

half_of : (x y d : ℕ) → x ≡ y * 2 + d → d ≤ 1 → x / 2 ≡ y
half_of x y d e h = omega arith

-- A bit of a conjunction, of a disjunction, of a complement.
pub test_bit-bit_and : (i a b : ℕ) → test_bit i (bit_and a b) ≡ min (test_bit i a) (test_bit i b)
unfolding test_bit
test_bit-bit_and zero a b = omega (arith, bit_and_step a b)
test_bit-bit_and (suc i) a b =
    rw
      (half_of (bit_and a b) (bit_and (a / 2) (b / 2)) (min (a % 2) (b % 2)) (bit_and_step a b)
        (omega arith))
      (test_bit-bit_and i (a / 2) (b / 2))

pub test_bit-bit_or : (i a b : ℕ) → test_bit i (bit_or a b) ≡ max (test_bit i a) (test_bit i b)
unfolding test_bit
test_bit-bit_or zero a b = omega (arith, bit_or_step a b)
test_bit-bit_or (suc i) a b =
    rw
      (half_of (bit_or a b) (bit_or (a / 2) (b / 2)) (max (a % 2) (b % 2)) (bit_or_step a b)
        (omega arith))
      (test_bit-bit_or i (a / 2) (b / 2))

complement_bit : (i k x : ℕ) → x < 2 ^ k → i < k → test_bit i (2 ^ k - 1 - x) ≡ 1 - test_bit i x
unfolding test_bit
complement_bit i zero x h p = absurd (omega arith)
complement_bit zero (suc k) x h p = omega (arith, pow-suc 2 k, one-le-pow k 2)
complement_bit (suc i) (suc k) x h p =
    rw (half) (complement_bit i k (x / 2) (omega (arith, pow-suc 2 k)) (omega arith))
  where
    half : (2 ^ suc k - 1 - x) / 2 ≡ 2 ^ k - 1 - x / 2
    half = omega (arith, pow-suc 2 k, one-le-pow k 2)

pub test_bit-not32 : (i x : ℕ) → x < u32_mod → i < 32 → test_bit i (not32 x) ≡ 1 - test_bit i x
test_bit-not32 i x h p = complement_bit i 32 x h p
