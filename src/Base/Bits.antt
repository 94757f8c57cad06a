-- ===== src/Base/Bits.antt =====
-- Laws of `&`, `|` and `^` on words of any width, from the recursion on their lowest digit.
mod Digits
mod Xor
pub use Xor.*
use Digits.{bit_or_step, bit_and_step}
use Prim.Native.Nat.{ℕ, zero, suc, ◌+◌, ◌-◌, ◌*◌, ◌/◌, ◌%◌, ◌^◌, ◌<◌, bit_and, bit_or}
use mathlib.Core.Path.{◌≡◌, refl, ap}
use native.Mathlib.Nat.{pow-suc, one-le-pow}
use native.Mathlib.Omega.{arith}

bit_or-zero : (n a : ℕ) → a < n → bit_or a 0 ≡ a
bit_or-zero zero a h = absurd (omega arith)
bit_or-zero (suc n) zero h = refl
bit_or-zero (suc n) (suc a) h =
    omega (arith, bit_or_step (suc a) 0, bit_or-zero n (suc a / 2) (omega arith))

bit_and-zero : (n a : ℕ) → a < n → bit_and a 0 ≡ 0
bit_and-zero zero a h = absurd (omega arith)
bit_and-zero (suc n) zero h = refl
bit_and-zero (suc n) (suc a) h =
    omega (arith, bit_and_step (suc a) 0, bit_and-zero n (suc a / 2) (omega arith))

double : (a k : ℕ) → a * 2 ^ suc k ≡ 2 * (a * 2 ^ k)
double a k = omega (arith, ap (λ (t : ℕ). a * t) (pow-suc 2 k))

-- A value below `2 ^ k` is joined to a multiple of `2 ^ k` by `|` as by `+`.
pub bit_or-eq-add : (k a b : ℕ) → b < 2 ^ k → bit_or (a * 2 ^ k) b ≡ a * 2 ^ k + b
bit_or-eq-add zero a b h = ground (arith, bit_or-zero (a + 1) a (omega arith))
bit_or-eq-add (suc k) a b h =
    ground
      (arith, bit_or_step (a * 2 ^ suc k) b, double a k, bit_or-eq-add k a (b / 2) (omega arith))

bit_and-ones : (k a b : ℕ) → b < 2 ^ k → bit_and (a * 2 ^ k + b) (2 ^ k - 1) ≡ b
bit_and-ones zero a b h = ground (arith, bit_and-zero (a * 2 ^ 0 + b + 1) (a * 2 ^ 0 + b))
bit_and-ones (suc k) a b h = ground (
  arith,
  bit_and_step (a * 2 ^ suc k + b) (2 ^ suc k - 1),
  double a k,
  pow-suc 2 k,
  bit_and-ones k a (b / 2) (omega arith),
)

-- The mask of one byte, and that of the lowest bit.
pub bit_and_byte : (a : ℕ) → bit_and a 0xff ≡ a % 256
bit_and_byte a = ground (arith, bit_and-ones 8 (a / 256) (a % 256))

pub bit_and_one : (a : ℕ) → bit_and a 1 ≡ a % 2
bit_and_one a = ground (arith, bit_and-ones 1 (a / 2) (a % 2))
