-- ===== src/Wire/Stores.antt =====
-- A store writes back the bytes that a load of the same width read.
use bcnp.Base.{
  ℕ, zero, suc, ◌+◌, ◌*◌, ◌/◌, ◌%◌, ◌^◌, ◌≤◌, ◌≡◌, refl, ap, ap₂, ◌∙◌, arith, [], ◌∷◌, All, length,
  take, drop, bit_or,
}
use bcnp.Base.Bits.{bit_and_byte}
use bcnp.Base.Words.{IsByte}
use bcnp.Wire.{Bytes, byte_at, load_u16, load_u32, u16_bytes, u32_bytes}
use bcnp.Wire.RoundTrip.{load_u16-eq-sum, load_u32-eq-sum}

u16_split : (a b : ℕ) → IsByte a → IsByte b → u16_bytes (a * 256 + b) ≡ a ∷ b ∷ []
unfolding u16_bytes
u16_split a b ha hb =
    ap₂ (λ x y. x ∷ y ∷ []) (omega (arith, bit_and_byte ((a * 256 + b) / 2 ^ 8)))
      (omega (arith, bit_and_byte (a * 256 + b)))

u32_split :
    (a b c d : ℕ)
    → IsByte a
    → IsByte b
    → IsByte c
    → IsByte d
    → u32_bytes (a * 2 ^ 24 + b * 2 ^ 16 + c * 2 ^ 8 + d) ≡ a ∷ b ∷ c ∷ d ∷ []
unfolding u32_bytes
u32_split a b c d ha hb hc hd = ground (
  arith,
  bit_and_byte ((a * 2 ^ 24 + b * 2 ^ 16 + c * 2 ^ 8 + d) / 2 ^ 24),
  bit_and_byte ((a * 2 ^ 24 + b * 2 ^ 16 + c * 2 ^ 8 + d) / 2 ^ 16),
  bit_and_byte ((a * 2 ^ 24 + b * 2 ^ 16 + c * 2 ^ 8 + d) / 2 ^ 8),
  bit_and_byte (a * 2 ^ 24 + b * 2 ^ 16 + c * 2 ^ 8 + d),
)

-- A load behind the first byte.
byte_behind : (a : ℕ) (p : Bytes) (i k : ℕ) → byte_at (a ∷ p) (suc i + k) ≡ byte_at p (i + k)
byte_behind a p i k = ap (byte_at (a ∷ p)) same
  where
    same : suc i + k ≡ suc (i + k)
    same = omega arith

load_u16-suc : (a : ℕ) (p : Bytes) (i : ℕ) → load_u16 (a ∷ p) (suc i) ≡ load_u16 p i
unfolding load_u16
load_u16-suc a p i = ap (λ t. bit_or (byte_at p i * 2 ^ 8) t % 2 ^ 16) (byte_behind a p i 1)

load_u32-suc : (a : ℕ) (p : Bytes) (i : ℕ) → load_u32 (a ∷ p) (suc i) ≡ load_u32 p i
unfolding load_u32
load_u32-suc a p i =
    ap₂ bit_or
      (ap₂ bit_or (ap₂ bit_or refl (ap (λ t. t * 2 ^ 16 % 2 ^ 32) (byte_behind a p i 1)))
        (ap (λ t. t * 2 ^ 8 % 2 ^ 32) (byte_behind a p i 2)))
      (byte_behind a p i 3)

-- `StoreU16` of what `LoadU16` read at `i` is the two bytes that stand there.
pub u16_bytes-load_u16 :
    (p : Bytes) (i : ℕ)
    → All IsByte p
    → i + 2 ≤ length p
    → u16_bytes (load_u16 p i) ≡ take 2 (drop i p)
u16_bytes-load_u16 [] i h le = absurd (omega arith)
u16_bytes-load_u16 (a ∷ []) zero h le = absurd (omega arith)
u16_bytes-load_u16 (a ∷ b ∷ p) zero h le =
    ap u16_bytes (load_u16-eq-sum (a ∷ b ∷ p) 0 h.0 h.1.0) ∙ u16_split a b h.0 h.1.0
u16_bytes-load_u16 (a ∷ p) (suc i) h le =
    ap u16_bytes (load_u16-suc a p i) ∙ u16_bytes-load_u16 p i h.1 (omega arith)

pub u32_bytes-load_u32 :
    (p : Bytes) (i : ℕ)
    → All IsByte p
    → i + 4 ≤ length p
    → u32_bytes (load_u32 p i) ≡ take 4 (drop i p)
u32_bytes-load_u32 [] i h le = absurd (omega arith)
u32_bytes-load_u32 (a ∷ []) zero h le = absurd (omega arith)
u32_bytes-load_u32 (a ∷ b ∷ []) zero h le = absurd (omega arith)
u32_bytes-load_u32 (a ∷ b ∷ c ∷ []) zero h le = absurd (omega arith)
u32_bytes-load_u32 (a ∷ b ∷ c ∷ d ∷ p) zero h le =
    ap u32_bytes (load_u32-eq-sum (a ∷ b ∷ c ∷ d ∷ p) 0 h.0 h.1.0 h.1.1.0 h.1.1.1.0)
    ∙ u32_split a b c d h.0 h.1.0 h.1.1.0 h.1.1.1.0
u32_bytes-load_u32 (a ∷ p) (suc i) h le =
    ap u32_bytes (load_u32-suc a p i) ∙ u32_bytes-load_u32 p i h.1 (omega arith)
