-- ===== src/Common/Bits.antt =====
-- Bits of a machine word, and what the native bit operations do to each of them.
use Prim.Native.Nat.{
  ℕ, zero, suc, ◌+◌, ◌-◌, ◌*◌, ◌/◌, ◌%◌, ◌^◌, ◌≤◌, min, max, bit_and, bit_or, digits, bitwise,
  bit_and-bitwise, bit_or-bitwise,
}
use mathlib.Core.Path.{◌≡◌, refl, ◌∙◌, ap}
use mathlib.Core.Bool.{Bool, not, ◌&&◌, ◌||◌}
use native.Mathlib.Omega.{arith}
use linux_pci_driver.Common.Tests.{◌==◌}

-- `w & (1u << k)` as a test.
abbrev pub test_bit : ℕ → ℕ → Bool
test_bit w zero = w % 2 == 1
test_bit w (suc k) = test_bit (w / 2) k

-- The library computes `bit_and` and `bit_or` by a count of digits. More count than digits changes
-- nothing, so an operation on two numbers is that on their halves and that on their last digits.
module _ (rest : ℕ → ℕ) (op : ℕ → ℕ → ℕ) where
  spare_digit :
      (count w v : ℕ) → w ≤ count → digits rest op (suc count) w v ≡ digits rest op count w v
  spare_digit zero zero v enough = refl
  spare_digit (suc less) zero v enough = refl
  spare_digit zero (suc w) v enough = absurd (omega arith)
  spare_digit (suc less) (suc w) v enough =
      ap (λ (high : ℕ). high * 2 + op (suc w % 2) (v % 2))
        (spare_digit less (suc w / 2) (v / 2) (omega arith))

  succeeds : (n k w : ℕ) → n ≡ suc k + w → n ≡ suc (k + w)
  succeeds n k w e = omega arith

  spare_digits : (k w v n : ℕ) → n ≡ k + w → digits rest op n w v ≡ bitwise rest op w v
  spare_digits zero w v n e = ap (λ (m : ℕ). digits rest op m w v) (omega arith)
  spare_digits (suc k) w v n e =
      ap (λ (m : ℕ). digits rest op m w v) (succeeds n k w e)
      ∙ spare_digit (k + w) w v (omega arith)
      ∙ spare_digits k w v (k + w) refl

  halves :
      (w v : ℕ)
      → bitwise rest op (suc w) v ≡ bitwise rest op (suc w / 2) (v / 2) * 2 + op (suc w % 2) (v % 2)
  halves w v =
      ap (λ (high : ℕ). high * 2 + op (suc w % 2) (v % 2))
        (spare_digits (w - suc w / 2) (suc w / 2) (v / 2) w (omega arith))

bit_and_halves : (w v : ℕ) → bit_and w v ≡ bit_and (w / 2) (v / 2) * 2 + min (w % 2) (v % 2)
bit_and_halves zero v = omega (arith, bit_and-bitwise 0 v, bit_and-bitwise 0 (v / 2))
bit_and_halves (suc w) v = omega (
  arith,
  bit_and-bitwise (suc w) v,
  bit_and-bitwise (suc w / 2) (v / 2),
  halves (λ low. zero) min w v,
)

bit_or_halves : (w v : ℕ) → bit_or w v ≡ bit_or (w / 2) (v / 2) * 2 + max (w % 2) (v % 2)
bit_or_halves zero v = omega (arith, bit_or-bitwise 0 v, bit_or-bitwise 0 (v / 2))
bit_or_halves (suc w) v = omega (
  arith,
  bit_or-bitwise (suc w) v,
  bit_or-bitwise (suc w / 2) (v / 2),
  halves (λ high. high) max w v,
)

half-bit_and : (a b : ℕ) → bit_and a b / 2 ≡ bit_and (a / 2) (b / 2)
half-bit_and a b = omega (arith, bit_and_halves a b)

half-bit_or : (a b : ℕ) → bit_or a b / 2 ≡ bit_or (a / 2) (b / 2)
half-bit_or a b = omega (arith, bit_or_halves a b)

-- Each bit of a conjunction is the conjunction of the bits.
pub test_bit-bit_and : (k a b : ℕ) → test_bit (bit_and a b) k ≡ (test_bit a k && test_bit b k)
test_bit-bit_and zero a b = ground (arith, bit_and_halves a b)
test_bit-bit_and (suc k) a b = rw half-bit_and (test_bit-bit_and k (a / 2) (b / 2))

pub test_bit-bit_or : (k a b : ℕ) → test_bit (bit_or a b) k ≡ (test_bit a k || test_bit b k)
test_bit-bit_or zero a b = ground (arith, bit_or_halves a b)
test_bit-bit_or (suc k) a b = rw half-bit_or (test_bit-bit_or k (a / 2) (b / 2))

-- `~w` on `n` bits, and each of its bits.
abbrev pub complement : ℕ → ℕ → ℕ
complement n w = 2 ^ n - 1 - w % 2 ^ n

pub test_bit-complement32 : (w : ℕ) → test_bit (complement 32 w) 5 ≡ not (test_bit w 5)
test_bit-complement32 w = ground arith

-- A disjunction is at least each of its sides.
bit_or_above : (n a b : ℕ) → a + b ≤ n → (a ≤ bit_or a b) × (b ≤ bit_or a b)
bit_or_above zero a b small = omega (arith, bit_or_halves a b)
bit_or_above (suc n) a b small =
    let (first, second) = bit_or_above n (a / 2) (b / 2) (omega arith) in
    omega (arith, bit_or_halves a b, first, second)

pub bit_or_bounds : (a b : ℕ) → (a ≤ bit_or a b) × (b ≤ bit_or a b)
bit_or_bounds a b = bit_or_above (a + b) a b (omega arith)
