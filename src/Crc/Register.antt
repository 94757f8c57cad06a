-- ===== src/Crc/Register.antt =====
-- The register of the checksum is a 32-bit word, and no step of it loses information.
use bcnp.Base.{ℕ, zero, suc, ◌/◌, ◌%◌, ◌^◌, ◌≡◌, sym, ap, ◌∙◌}
use bcnp.Base.{arith, [], ◌∷◌, bit_xor, All}
use bcnp.Base.Bits.{bit_and_one, bit_xor_shift, bit_xor-lt, bit_xor_injective, bit_xor_comm}
use bcnp.Base.Words.{IsByte, IsU32}
use bcnp.Wire.{Bytes}
use bcnp.Crc.{crc_bit, crc_bits, crc_byte, crc_loop, compute_crc32}
use bcnp.Crc.Reference.{crc_byte-eq-crc_bits}

crc_bit-IsU32 : (x : ℕ) → IsU32 x → IsU32 (crc_bit x)
unfolding crc_bit
crc_bit-IsU32 x h = ground (arith, bit_xor-lt 32 (x / 2) 0xEDB88320)

-- The polynomial has the top bit, so the bit that was shifted out shows there.
top_bit : (x : ℕ) → IsU32 x → crc_bit x / 2 ^ 31 ≡ x % 2
unfolding crc_bit
top_bit x h = ground (arith, bit_and_one x, odd)
  where
    low : x / 2 / 2 ^ 31 ≡ 0
    low = omega arith

    above : bit_xor (x / 2 / 2 ^ 31) 1 ≡ 1
    above = ap (λ t. bit_xor t 1) low

    odd : bit_xor (x / 2) 0xEDB88320 / 2 ^ 31 ≡ 1
    odd = bit_xor_shift 31 (x / 2) 0xEDB88320 ∙ above

crc_bit_half : (x y : ℕ) → x % 2 ≡ y % 2 → crc_bit x ≡ crc_bit y → x / 2 ≡ y / 2
unfolding crc_bit
crc_bit_half x y p e = ground (
  arith,
  bit_and_one x,
  bit_and_one y,
  bit_xor_comm (x / 2) 0xEDB88320,
  bit_xor_comm (y / 2) 0xEDB88320,
  bit_xor_injective 0xEDB88320 (x / 2) (y / 2),
)

crc_bit_injective : (x y : ℕ) → IsU32 x → IsU32 y → crc_bit x ≡ crc_bit y → x ≡ y
crc_bit_injective x y hx hy e = omega (arith, parity, crc_bit_half x y parity e)
  where
    parity : x % 2 ≡ y % 2
    parity = sym (top_bit x hx) ∙ ap (λ t. t / 2 ^ 31) e ∙ top_bit y hy

pub crc_bits-IsU32 : (k x : ℕ) → IsU32 x → IsU32 (crc_bits k x)
unfolding crc_bits
crc_bits-IsU32 zero x h = h
crc_bits-IsU32 (suc k) x h = crc_bits-IsU32 k (crc_bit x) (crc_bit-IsU32 x h)

pub crc_bits_injective : (k x y : ℕ) → IsU32 x → IsU32 y → crc_bits k x ≡ crc_bits k y → x ≡ y
unfolding crc_bits
crc_bits_injective zero x y hx hy e = e
crc_bits_injective (suc k) x y hx hy e =
    crc_bit_injective x y hx hy
      (crc_bits_injective k (crc_bit x) (crc_bit y) (crc_bit-IsU32 x hx) (crc_bit-IsU32 y hy) e)

pub crc_byte-IsU32 : (crc b : ℕ) → IsU32 crc → IsByte b → IsU32 (crc_byte crc b)
crc_byte-IsU32 crc b hc hb =
    let wide : IsU32 (bit_xor crc b) = bit_xor-lt 32 crc b hc (omega arith) in
    let out : IsU32 (crc_bits 8 (bit_xor crc b)) = crc_bits-IsU32 8 (bit_xor crc b) wide in
    omega (arith, out, crc_byte-eq-crc_bits crc b hb)

pub crc_loop-IsU32 :
    (crc : ℕ) (bytes : Bytes) → IsU32 crc → All IsByte bytes → IsU32 (crc_loop crc bytes)
unfolding crc_loop
crc_loop-IsU32 crc [] hc h = hc
crc_loop-IsU32 crc (b ∷ bs) hc h =
    crc_loop-IsU32 (crc_byte crc b) bs (crc_byte-IsU32 crc b hc h.0) h.1

-- The checksum is a 32-bit word.
pub compute_crc32-IsU32 : (bytes : Bytes) → All IsByte bytes → IsU32 (compute_crc32 bytes)
unfolding compute_crc32
compute_crc32-IsU32 bytes h =
    bit_xor-lt 32 (crc_loop 0xFFFFFFFF bytes) 0xFFFFFFFF
      (crc_loop-IsU32 0xFFFFFFFF bytes (omega arith) h) (omega arith)
