-- ===== src/Base/Bits/Xor.antt =====
-- `^` is associative and commutative, every value is its own inverse, and a width is kept.
use bcnp.Base.Bits.Digits.{bit_xor_step}
use Prim.Native.Nat.{ℕ, zero, suc, ◌+◌, ◌*◌, ◌/◌, ◌%◌, ◌^◌, ◌<◌, bit_xor, bit_xor-bitwise}
use mathlib.Core.Path.{◌≡◌, refl, sym, ap, ap₂, ◌∙◌}
use native.Mathlib.Nat.{pow-suc, pow-succ', div-div-eq-div-mul, div-one}
use native.Mathlib.Omega.{arith}

pub bit_xor_half : (a b : ℕ) → bit_xor a b / 2 ≡ bit_xor (a / 2) (b / 2)
bit_xor_half a b = omega (arith, bit_xor_step a b)

pub bit_xor_odd : (a b : ℕ) → bit_xor a b % 2 ≡ (a + b) % 2
bit_xor_odd a b = omega (arith, bit_xor_step a b)

-- Two numbers with equal halves and equal lowest digits are equal.
same_digits : (a b : ℕ) → a / 2 ≡ b / 2 → a % 2 ≡ b % 2 → a ≡ b
same_digits a b p q = omega arith

comm_fuel : (n a b : ℕ) → a < n → b < n → bit_xor a b ≡ bit_xor b a
comm_fuel zero a b p q = absurd (omega arith)
comm_fuel (suc zero) zero zero p q = refl
comm_fuel (suc zero) zero (suc b) p q = absurd (omega arith)
comm_fuel (suc zero) (suc a) b p q = absurd (omega arith)
comm_fuel (suc (suc n)) a b p q = omega (
  arith,
  bit_xor_step a b,
  bit_xor_step b a,
  comm_fuel (suc n) (a / 2) (b / 2) (omega arith) (omega arith),
)

pub bit_xor_comm : (a b : ℕ) → bit_xor a b ≡ bit_xor b a
bit_xor_comm a b = comm_fuel (suc (a + b)) a b (omega arith) (omega arith)

pub zero-bit_xor : (a : ℕ) → bit_xor 0 a ≡ a
zero-bit_xor a = bit_xor-bitwise 0 a

pub bit_xor-zero : (a : ℕ) → bit_xor a 0 ≡ a
bit_xor-zero a = bit_xor_comm a 0 ∙ zero-bit_xor a

zero-bit_xor_left : (b c : ℕ) → bit_xor (bit_xor 0 b) c ≡ bit_xor 0 (bit_xor b c)
zero-bit_xor_left b c = ap (λ k. bit_xor k c) (zero-bit_xor b) ∙ sym (zero-bit_xor (bit_xor b c))

assoc_fuel :
    (n a b c : ℕ) → a < n → b < n → c < n → bit_xor (bit_xor a b) c ≡ bit_xor a (bit_xor b c)
assoc_fuel zero a b c p q r = absurd (omega arith)
assoc_fuel (suc zero) zero b c p q r = zero-bit_xor_left b c
assoc_fuel (suc zero) (suc a) b c p q r = absurd (omega arith)
assoc_fuel (suc (suc n)) a b c p q r = omega (
  arith,
  bit_xor_step (bit_xor a b) c,
  bit_xor_step a (bit_xor b c),
  bit_xor_odd a b,
  bit_xor_odd b c,
  ap (λ k. bit_xor k (c / 2)) (bit_xor_half a b),
  ap (λ k. bit_xor (a / 2) k) (bit_xor_half b c),
  assoc_fuel (suc n) (a / 2) (b / 2) (c / 2) (omega arith) (omega arith) (omega arith),
)

pub bit_xor_assoc : (a b c : ℕ) → bit_xor (bit_xor a b) c ≡ bit_xor a (bit_xor b c)
bit_xor_assoc a b c = assoc_fuel (suc (a + b + c)) a b c (omega arith) (omega arith) (omega arith)

self_fuel : (n a : ℕ) → a < n → bit_xor a a ≡ 0
self_fuel zero a h = absurd (omega arith)
self_fuel (suc n) zero h = refl
self_fuel (suc n) (suc a) h =
    omega (arith, bit_xor_step (suc a) (suc a), self_fuel n (suc a / 2) (omega arith))

pub bit_xor_self : (a : ℕ) → bit_xor a a ≡ 0
bit_xor_self a = self_fuel (suc a) a (omega arith)

-- A value is recovered by a second `^` with the same word.
pub bit_xor_cancel : (a b : ℕ) → bit_xor a (bit_xor a b) ≡ b
bit_xor_cancel a b =
    sym (bit_xor_assoc a a b) ∙ ap (λ k. bit_xor k b) (bit_xor_self a) ∙ zero-bit_xor b

pub bit_xor_injective : (a b c : ℕ) → bit_xor a b ≡ bit_xor a c → b ≡ c
bit_xor_injective a b c e = sym (bit_xor_cancel a b) ∙ ap (λ k. bit_xor a k) e ∙ bit_xor_cancel a c

pub bit_xor-lt : (k a b : ℕ) → a < 2 ^ k → b < 2 ^ k → bit_xor a b < 2 ^ k
bit_xor-lt zero zero zero p q = omega arith
bit_xor-lt zero zero (suc b) p q = absurd (omega arith)
bit_xor-lt zero (suc a) b p q = absurd (omega arith)
bit_xor-lt (suc k) a b p q = omega (
  arith,
  bit_xor_step a b,
  pow-suc 2 k,
  bit_xor-lt k (a / 2) (b / 2) (omega (arith, pow-suc 2 k)) (omega (arith, pow-suc 2 k)),
)

div-two-pow-suc : (k a : ℕ) → a / 2 ^ suc k ≡ a / 2 / 2 ^ k
div-two-pow-suc k a = ap (λ t. a / t) (pow-succ' 2 k) ∙ sym (div-div-eq-div-mul a 2 (2 ^ k))

-- A shift to the right passes through `^`.
pub bit_xor_shift : (k a b : ℕ) → bit_xor a b / 2 ^ k ≡ bit_xor (a / 2 ^ k) (b / 2 ^ k)
bit_xor_shift zero a b = div-one (bit_xor a b) ∙ ap₂ bit_xor (sym (div-one a)) (sym (div-one b))
bit_xor_shift (suc k) a b =
    div-two-pow-suc k (bit_xor a b)
    ∙ ap (λ t. t / 2 ^ k) (bit_xor_half a b)
    ∙ bit_xor_shift k (a / 2) (b / 2)
    ∙ ap₂ bit_xor (sym (div-two-pow-suc k a)) (sym (div-two-pow-suc k b))

-- Words with no bit in common are joined by `^` as by `+`.
pub bit_xor-eq-add : (k a b : ℕ) → b < 2 ^ k → bit_xor (a * 2 ^ k) b ≡ a * 2 ^ k + b
bit_xor-eq-add zero a b h = ground (arith, bit_xor-zero a)
bit_xor-eq-add (suc k) a b h = ground (
  arith,
  bit_xor_step (a * 2 ^ suc k) b,
  ap (λ (t : ℕ). a * t) (pow-suc 2 k),
  pow-suc 2 k,
  bit_xor-eq-add k a (b / 2) (omega (arith, pow-suc 2 k)),
)
