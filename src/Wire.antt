-- ===== src/Wire.antt =====
-- The byte order utilities of generated/bcnp/message_types.h: big-endian loads and stores.
-- A buffer is the list of its bytes, and a pointer into it an index.
pub mod RoundTrip
pub mod Stores
use bcnp.Base.{ℕ, ◌+◌, ◌-◌, ◌*◌, ◌%◌, ◌^◌, ◌/◌, List, [], ◌∷◌, bit_and, bit_or, get_or, ltb}
use bcnp.Base.{if◌then◌else◌, write_at}
use bcnp.Base.Words.{u8, u16, u32, ◌<<<◌, ◌>>>◌}

abbrev pub Bytes : Type 0
Bytes = List ℕ

-- `data[i]`. The callers keep `i` inside the buffer; outside of it the model reads 0.
abbrev pub byte_at : Bytes → ℕ → ℕ
byte_at data_ i = get_or data_ i 0

unfoldable pub load_u16 : Bytes → ℕ → ℕ
load_u16 p i = u16 (bit_or (byte_at p i <<< 8) (byte_at p (i + 1)))

unfoldable pub load_u32 : Bytes → ℕ → ℕ
load_u32 p i =
    bit_or
      (bit_or (bit_or (u32 (byte_at p i <<< 24)) (u32 (byte_at p (i + 1) <<< 16)))
        (u32 (byte_at p (i + 2) <<< 8)))
      (byte_at p (i + 3))

-- The bytes that `StoreU16` puts at `p[0]` and `p[1]`.
unfoldable pub u16_bytes : ℕ → Bytes
u16_bytes v = u8 (bit_and (v >>> 8) 0xff) ∷ u8 (bit_and v 0xff) ∷ []

unfoldable pub u32_bytes : ℕ → Bytes
u32_bytes v =
    u8 (bit_and (v >>> 24) 0xff)
    ∷ u8 (bit_and (v >>> 16) 0xff)
    ∷ u8 (bit_and (v >>> 8) 0xff)
    ∷ u8 (bit_and v 0xff)
    ∷ []

unfoldable pub store_u16 : ℕ → Bytes → ℕ → Bytes
store_u16 v p i = write_at p i (u16_bytes v)

unfoldable pub store_u32 : ℕ → Bytes → ℕ → Bytes
store_u32 v p i = write_at p i (u32_bytes v)
