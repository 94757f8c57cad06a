-- ===== src/Base/Bits/Digits.antt =====
-- The native bit operations are recursions on binary digits with fuel. Here the fuel is dropped.
use Prim.Native.Nat.{
  ℕ, zero, suc, ◌+◌, ◌-◌, ◌*◌, ◌/◌, ◌%◌, ◌<◌, ◌≤◌, min, max, digits, bitwise, differ,
}
use Prim.Native.Nat.{bit_and, bit_or, bit_xor, bit_and-bitwise, bit_or-bitwise, bit_xor-bitwise}
use mathlib.Core.Path.{◌≡◌, refl, ap, ◌∙◌}
use native.Mathlib.Nat.{zero-add}
use native.Mathlib.Omega.{arith}

suc_add : (m k : ℕ) → suc m + k ≡ suc (m + k)
suc_add m k = omega arith

module _ (base : ℕ → ℕ) (digit : ℕ → ℕ → ℕ) where
  -- Fuel above the first operand is not used.
  extra : (a b m k : ℕ) → a ≤ m → digits base digit (m + k) a b ≡ digits base digit m a b
  extra zero b zero zero le = refl
  extra zero b zero (suc k) le = rw (zero-add (suc k))
  extra (suc a) b zero k le = absurd (omega arith)
  extra zero b (suc m) k le = rw (suc_add m k)
  extra (suc a) b (suc m) k le = rw (suc_add m k) (rw (extra (suc a / 2) (b / 2) m k (omega arith)))

  exact : (a b m : ℕ) → a ≤ m → digits base digit m a b ≡ digits base digit a a b
  exact a b m le =
      ap (λ n. digits base digit n a b) (omega arith) ∙ extra a b a (m - a) (omega arith)

  lowest :
      (a b : ℕ)
      → bitwise base digit (suc a) b
        ≡ digit (suc a % 2) (b % 2) + 2 * bitwise base digit (suc a / 2) (b / 2)
  lowest a b = omega (arith, exact (suc a / 2) (b / 2) a (omega arith))

differ-zero : (a : ℕ) → differ a 0 ≡ a
differ-zero zero = refl
differ-zero (suc a) = refl

differ_digits : (a b : ℕ) → a < 2 → b < 2 → differ a b ≡ (a + b) % 2
differ_digits zero b p q = omega arith
differ_digits (suc zero) zero p q = omega arith
differ_digits (suc zero) (suc b) p q = omega arith
differ_digits (suc (suc a)) b p q = absurd (omega arith)

pub bit_xor_step : (x y : ℕ) → bit_xor x y ≡ (x + y) % 2 + 2 * bit_xor (x / 2) (y / 2)
bit_xor_step zero y = simp bit_xor-bitwise (omega arith)
bit_xor_step (suc x) y = simp bit_xor-bitwise (
    omega (
      arith,
      lowest (λ d. d) differ x y,
      differ_digits (suc x % 2) (y % 2) (omega arith) (omega arith),
    ))

pub bit_and_step : (x y : ℕ) → bit_and x y ≡ min (x % 2) (y % 2) + 2 * bit_and (x / 2) (y / 2)
bit_and_step zero y = simp bit_and-bitwise (omega arith)
bit_and_step (suc x) y = simp bit_and-bitwise (lowest (λ d. 0) min x y)

pub bit_or_step : (x y : ℕ) → bit_or x y ≡ max (x % 2) (y % 2) + 2 * bit_or (x / 2) (y / 2)
bit_or_step zero y = simp bit_or-bitwise (omega arith)
bit_or_step (suc x) y = simp bit_or-bitwise (lowest (λ d. d) max x y)
