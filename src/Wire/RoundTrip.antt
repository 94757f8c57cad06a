-- ===== src/Wire/RoundTrip.antt =====
-- A load reads back what the store of the same width wrote, and a store is the inverse of a load.
use bcnp.Base.{ℕ, ◌+◌, ◌*◌, ◌/◌, ◌%◌, ◌^◌, ◌<◌, ◌≡◌, refl, sym, ap, ap₂, ◌∙◌}
use bcnp.Base.{arith, ◌∷◌, ◌++◌, bit_or, All, length, get_or-append_right, get_or-take, take}
use bcnp.Base.Bits.{bit_or-eq-add, bit_and_byte}
use bcnp.Base.Words.{IsByte, IsU16, IsU32}
use native.Mathlib.Nat.{add-zero}
use bcnp.Wire.{Bytes, byte_at, load_u16, load_u32, u16_bytes, u32_bytes}

-- `|` of the shifted bytes is the number that they spell.
pub load_u16-eq-sum :
    (p : Bytes) (i : ℕ)
    → IsByte (byte_at p i)
    → IsByte (byte_at p (i + 1))
    → load_u16 p i ≡ byte_at p i * 256 + byte_at p (i + 1)
unfolding load_u16
load_u16-eq-sum p i h0 h1 =
    omega (arith, bit_or-eq-add 8 (byte_at p i) (byte_at p (i + 1)) (omega arith))

or_bytes :
    (a b c d : ℕ)
    → IsByte a
    → IsByte b
    → IsByte c
    → IsByte d
    → bit_or (bit_or (bit_or (a * 2 ^ 24 % 2 ^ 32) (b * 2 ^ 16 % 2 ^ 32)) (c * 2 ^ 8 % 2 ^ 32)) d
      ≡ a * 2 ^ 24 + b * 2 ^ 16 + c * 2 ^ 8 + d
or_bytes a b c d ha hb hc hd =
    ap₂ bit_or (ap₂ bit_or (ap₂ bit_or fits_a fits_b ∙ two) fits_c ∙ three) refl ∙ four
  where
    fits_a : a * 2 ^ 24 % 2 ^ 32 ≡ a * 2 ^ 24
    fits_a = omega arith

    fits_b : b * 2 ^ 16 % 2 ^ 32 ≡ b * 2 ^ 16
    fits_b = omega arith

    fits_c : c * 2 ^ 8 % 2 ^ 32 ≡ c * 2 ^ 8
    fits_c = omega arith

    two : bit_or (a * 2 ^ 24) (b * 2 ^ 16) ≡ (a * 2 ^ 8 + b) * 2 ^ 16
    two = omega (arith, bit_or-eq-add 24 a (b * 2 ^ 16) (omega arith))

    three : bit_or ((a * 2 ^ 8 + b) * 2 ^ 16) (c * 2 ^ 8) ≡ (a * 2 ^ 16 + b * 2 ^ 8 + c) * 2 ^ 8
    three = omega (arith, bit_or-eq-add 16 (a * 2 ^ 8 + b) (c * 2 ^ 8) (omega arith))

    four : bit_or ((a * 2 ^ 16 + b * 2 ^ 8 + c) * 2 ^ 8) d ≡ a * 2 ^ 24 + b * 2 ^ 16 + c * 2 ^ 8 + d
    four = omega (arith, bit_or-eq-add 8 (a * 2 ^ 16 + b * 2 ^ 8 + c) d hd)

pub load_u32-eq-sum :
    (p : Bytes) (i : ℕ)
    → IsByte (byte_at p i)
    → IsByte (byte_at p (i + 1))
    → IsByte (byte_at p (i + 2))
    → IsByte (byte_at p (i + 3))
    → load_u32 p i
      ≡ byte_at p i * 2 ^ 24
        + byte_at p (i + 1) * 2 ^ 16
        + byte_at p (i + 2) * 2 ^ 8
        + byte_at p (i + 3)
unfolding load_u32
load_u32-eq-sum p i h0 h1 h2 h3 = or_bytes _ _ _ _ h0 h1 h2 h3

pub load_u16-IsU16 : (p : Bytes) (i : ℕ) → IsU16 (load_u16 p i)
unfolding load_u16
load_u16-IsU16 p i = omega arith

pub u16_bytes-All-IsByte : (v : ℕ) → All IsByte (u16_bytes v)
unfolding u16_bytes
u16_bytes-All-IsByte v = omega arith

pub u32_bytes-All-IsByte : (v : ℕ) → All IsByte (u32_bytes v)
unfolding u32_bytes
u32_bytes-All-IsByte v = omega arith

pub length-u16_bytes : (v : ℕ) → length (u16_bytes v) ≡ 2
unfolding u16_bytes
length-u16_bytes v = refl

pub length-u32_bytes : (v : ℕ) → length (u32_bytes v) ≡ 4
unfolding u32_bytes
length-u32_bytes v = refl

-- `LoadU16` reads back every `uint16_t` that `StoreU16` wrote, whatever follows.
pub load_u16-u16_bytes : (v : ℕ) (rest : Bytes) → IsU16 v → load_u16 (u16_bytes v ++ rest) 0 ≡ v
unfolding u16_bytes
load_u16-u16_bytes v rest h = omega (
  arith,
  load_u16-eq-sum (u16_bytes v ++ rest) 0 (omega arith) (omega arith),
  bit_and_byte (v / 2 ^ 8),
  bit_and_byte v,
)

-- `LoadU32` reads back every `uint32_t` that `StoreU32` wrote, whatever follows.
pub load_u32-u32_bytes : (v : ℕ) (rest : Bytes) → IsU32 v → load_u32 (u32_bytes v ++ rest) 0 ≡ v
unfolding u32_bytes
load_u32-u32_bytes v rest h = omega (
  arith,
  load_u32-eq-sum (u32_bytes v ++ rest) 0 (omega arith) (omega arith) (omega arith) (omega arith),
  bit_and_byte (v / 2 ^ 24),
  bit_and_byte (v / 2 ^ 16),
  bit_and_byte (v / 2 ^ 8),
  bit_and_byte v,
)

-- A load at the end of a front reads the front of what follows.
pub load_u32-append :
    (front rest : Bytes) → load_u32 (front ++ rest) (length front) ≡ load_u32 rest 0
unfolding load_u32
load_u32-append front rest =
    ap₂ bit_or
      (ap₂ bit_or
        (ap₂ bit_or (ap (λ t. t * 2 ^ 24 % 2 ^ 32) first) (ap (λ t. t * 2 ^ 16 % 2 ^ 32) (next 1)))
        (ap (λ t. t * 2 ^ 8 % 2 ^ 32) (next 2)))
      (next 3)
  where
    next : (i : ℕ) → byte_at (front ++ rest) (length front + i) ≡ byte_at rest i
    next i = get_or-append_right front rest i 0

    first : byte_at (front ++ rest) (length front) ≡ byte_at rest 0
    first = ap (byte_at (front ++ rest)) (sym (add-zero (length front))) ∙ next 0

-- A load inside a slice reads the buffer that it was taken of.
pub load_u16-take : (n : ℕ) (p : Bytes) (i : ℕ) → i + 1 < n → load_u16 (take n p) i ≡ load_u16 p i
unfolding load_u16
load_u16-take n p i h =
    ap₂ (λ a b. bit_or (a * 2 ^ 8) b % 2 ^ 16) (get_or-take n p i 0 (omega arith))
      (get_or-take n p (i + 1) 0 h)

pub load_u32-take : (n : ℕ) (p : Bytes) (i : ℕ) → i + 3 < n → load_u32 (take n p) i ≡ load_u32 p i
unfolding load_u32
load_u32-take n p i h =
    ap₂ bit_or
      (ap₂ bit_or
        (ap₂ bit_or (ap (λ t. t * 2 ^ 24 % 2 ^ 32) (get_or-take n p i 0 (omega arith)))
          (ap (λ t. t * 2 ^ 16 % 2 ^ 32) (get_or-take n p (i + 1) 0 (omega arith))))
        (ap (λ t. t * 2 ^ 8 % 2 ^ 32) (get_or-take n p (i + 2) 0 (omega arith))))
      (get_or-take n p (i + 3) 0 h)

-- The first byte of a buffer may be dropped before a load behind it.
pub load_u16-cons : (a : ℕ) (p : Bytes) → load_u16 (a ∷ p) 1 ≡ load_u16 p 0
unfolding load_u16
load_u16-cons a p = refl

pub load_u32-cons : (a : ℕ) (p : Bytes) → load_u32 (a ∷ p) 1 ≡ load_u32 p 0
unfolding load_u32
load_u32-cons a p = refl
