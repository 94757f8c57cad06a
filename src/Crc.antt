-- ===== src/Crc.antt =====
-- The checksum of packet.cpp: the table and the loop of `ComputeCrc32`.
pub mod Reference
pub mod Register
pub mod Detect
use bcnp.Base.{ℕ, zero, suc, ◌/◌, ◌^◌, ◌%◌, List, [], ◌∷◌, bit_and, bit_xor, ◌/=◌, ◌+◌, get_or}
use bcnp.Base.{if◌then◌else◌}
use bcnp.Base.Words.{u8, ◌>>>◌}
use bcnp.Wire.{Bytes}

-- 0xEDB88320, the reflected polynomial.
abbrev pub polynomial : ℕ
polynomial = 0xEDB88320

-- One round of the inner loop of `MakeCrcTable`.
unfoldable pub crc_bit : ℕ → ℕ
crc_bit crc = if bit_and crc 1 /= 0 then bit_xor (crc >>> 1) polynomial else crc >>> 1

-- `for (bit = 0; bit < rounds; ++bit)`
unfoldable pub crc_bits : ℕ → ℕ → ℕ
crc_bits zero crc = crc
crc_bits (suc rounds) crc = crc_bits rounds (crc_bit crc)

-- The entries from `i` on, `count` of them: the outer loop.
unfoldable pub crc_entries : ℕ → ℕ → List ℕ
crc_entries zero i = []
crc_entries (suc count) i = crc_bits 8 i ∷ crc_entries count (i + 1)

unfoldable pub make_crc_table : List ℕ
unfolding crc_entries crc_bits crc_bit
make_crc_table = crc_entries 256 0

-- One round of the loop of `ComputeCrc32`, on the byte `b`.
unfoldable pub crc_byte : ℕ → ℕ → ℕ
crc_byte crc b =
    let index = u8 (bit_and (bit_xor crc b) 0xff) in
    bit_xor (crc >>> 8) (get_or make_crc_table index 0)

unfoldable pub crc_loop : ℕ → Bytes → ℕ
crc_loop crc [] = crc
crc_loop crc (b ∷ bs) = crc_loop (crc_byte crc b) bs

-- The list is `data[0 .. length)`.
unfoldable pub compute_crc32 : Bytes → ℕ
unfolding crc_loop crc_byte make_crc_table
compute_crc32 bytes = bit_xor (crc_loop 0xFFFFFFFF bytes) 0xFFFFFFFF
