-- ===== src/Crc/Reference.antt =====
-- The table-driven loop against the checksum computed bit by bit.
use bcnp.Base.{ℕ, zero, suc, ◌+◌, ◌*◌, ◌/◌, ◌%◌, ◌^◌, ◌<◌, ◌≡◌, refl, sym, ap, ap₂, ◌∙◌, arith}
use bcnp.Base.{[], ◌∷◌, bit_and, bit_xor, get_or, All}
use bcnp.Base.Bits.{bit_and_one, bit_and_byte, bit_xor_odd, bit_xor_half, bit_xor_shift}
use bcnp.Base.Bits.{bit_xor-eq-add, bit_xor_assoc, bit_xor-zero}
use bcnp.Base.Words.{IsByte}
use bcnp.Wire.{Bytes}
use bcnp.Crc.{crc_bit, crc_bits, crc_entries, make_crc_table, crc_byte, crc_loop, compute_crc32}
use native.Mathlib.Nat.{pow-suc}

-- No table: each byte is added to the register, which is then shifted out bit by bit.
unfoldable pub serial_loop : ℕ → Bytes → ℕ
serial_loop crc [] = crc
serial_loop crc (b ∷ bs) = serial_loop (crc_bits 8 (bit_xor crc b)) bs

unfoldable pub serial_crc32 : Bytes → ℕ
unfolding serial_loop crc_bits crc_bit
serial_crc32 bytes = bit_xor (serial_loop 0xFFFFFFFF bytes) 0xFFFFFFFF

get_or-crc_entries :
    (count s i : ℕ) → i < count → get_or (crc_entries count s) i 0 ≡ crc_bits 8 (s + i)
unfolding crc_entries
get_or-crc_entries zero s i h = absurd (omega arith)
get_or-crc_entries (suc count) s zero h = ap (crc_bits 8) (omega arith)
get_or-crc_entries (suc count) s (suc i) h =
    get_or-crc_entries count (s + 1) i (omega arith) ∙ ap (crc_bits 8) (omega arith)

-- The step is linear: what stands above the lowest bit passes through unchanged.
pub crc_bit_linear : (a b : ℕ) → crc_bit (bit_xor (a * 2) b) ≡ bit_xor a (crc_bit b)
unfolding crc_bit
crc_bit_linear a b = ground (
  arith,
  bit_and_one (bit_xor (a * 2) b),
  bit_and_one b,
  bit_xor_odd (a * 2) b,
  halves,
  bit_xor_assoc a (b / 2) 0xEDB88320,
)
  where
    halves : bit_xor (a * 2) b / 2 ≡ bit_xor a (b / 2)
    halves = bit_xor_half (a * 2) b ∙ ap (λ k. bit_xor k (b / 2)) (omega arith)

pub crc_bits_linear : (k a b : ℕ) → crc_bits k (bit_xor (a * 2 ^ k) b) ≡ bit_xor a (crc_bits k b)
unfolding crc_bits
crc_bits_linear zero a b = ap (λ t. bit_xor t b) (omega arith)
crc_bits_linear (suc k) a b =
    ap (λ t. crc_bits k (crc_bit (bit_xor t b))) double
    ∙ ap (crc_bits k) (crc_bit_linear (a * 2 ^ k) b)
    ∙ crc_bits_linear k a (crc_bit b)
  where
    double : a * 2 ^ suc k ≡ a * 2 ^ k * 2
    double = omega (arith, ap (λ (t : ℕ). a * t) (pow-suc 2 k))

table_entry : (i : ℕ) → i < 256 → get_or make_crc_table i 0 ≡ crc_bits 8 i
unfolding make_crc_table
table_entry i h = get_or-crc_entries 256 0 i h ∙ ap (crc_bits 8) (omega arith)

-- The bits of `x` above the byte, and the byte.
split_byte : (x : ℕ) → bit_xor (x / 256) (crc_bits 8 (x % 256)) ≡ crc_bits 8 x
split_byte x =
    sym (crc_bits_linear 8 (x / 256) (x % 256))
    ∙ ap (crc_bits 8) (bit_xor-eq-add 8 (x / 256) (x % 256) (omega arith))
    ∙ ap (crc_bits 8) (omega arith)

above_byte : (crc b : ℕ) → IsByte b → crc / 256 ≡ bit_xor crc b / 256
above_byte crc b h =
    sym (bit_xor-zero (crc / 256))
    ∙ ap (bit_xor (crc / 256)) (omega arith)
    ∙ sym (bit_xor_shift 8 crc b)

-- A lookup in the table does eight bit steps at once.
pub crc_byte-eq-crc_bits : (crc b : ℕ) → IsByte b → crc_byte crc b ≡ crc_bits 8 (bit_xor crc b)
unfolding crc_byte
crc_byte-eq-crc_bits crc b h =
    ap₂ bit_xor (above_byte crc b h)
      (ap (λ i. get_or make_crc_table i 0) index ∙ table_entry (bit_xor crc b % 256) (omega arith))
    ∙ split_byte (bit_xor crc b)
  where
    index : bit_and (bit_xor crc b) 0xff % 2 ^ 8 ≡ bit_xor crc b % 256
    index = omega (arith, bit_and_byte (bit_xor crc b))

crc_loop-eq-serial_loop :
    (crc : ℕ) (bytes : Bytes) → All IsByte bytes → crc_loop crc bytes ≡ serial_loop crc bytes
unfolding crc_loop serial_loop
crc_loop-eq-serial_loop crc [] h = refl
crc_loop-eq-serial_loop crc (b ∷ bs) h =
    ap (λ c. crc_loop c bs) (crc_byte-eq-crc_bits crc b h.0)
    ∙ crc_loop-eq-serial_loop (crc_bits 8 (bit_xor crc b)) bs h.1

-- On every list of bytes the table-driven checksum is the one computed bit by bit.
pub compute_crc32-eq-serial_crc32 :
    (bytes : Bytes) → All IsByte bytes → compute_crc32 bytes ≡ serial_crc32 bytes
unfolding compute_crc32 serial_crc32
compute_crc32-eq-serial_crc32 bytes h =
    ap (λ c. bit_xor c 0xFFFFFFFF) (crc_loop-eq-serial_loop 0xFFFFFFFF bytes h)
