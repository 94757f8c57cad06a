-- ===== src/Handshake.antt =====
-- The handshake utilities of generated/bcnp/message_types.h: "BCNP" and a schema hash.
pub mod Laws
use bcnp.Base.{
  ℕ, Bool, true, false, ◌&&◌, not, Option, none, some, List, [], ◌∷◌, ltb, ◌==◌, if◌then◌else◌,
  take, write_at,
}
use bcnp.Wire.{Bytes, load_u32, store_u32}

abbrev pub handshake_size : ℕ
handshake_size = 8

abbrev pub handshake_magic : Bytes
handshake_magic = b'B' ∷ b'C' ∷ b'N' ∷ b'P' ∷ []

-- `kSchemaHash`
abbrev pub schema_hash : ℕ
schema_hash = 0x5667F881

-- `memcmp(a, b, n) == 0`, on slices of one length.
unfoldable pub bytes_equal : Bytes → Bytes → Bool
bytes_equal [] [] = true
bytes_equal [] (y ∷ ys) = false
bytes_equal (x ∷ xs) [] = false
bytes_equal (x ∷ xs) (y ∷ ys) = x == y && bytes_equal xs ys

-- `none` is `false`, with the buffer as it was.
unfoldable pub encode_handshake_with_hash : Bytes → ℕ → ℕ → Option Bytes
encode_handshake_with_hash out capacity hash =
    if ltb capacity handshake_size
    then none
    else some (store_u32 hash (write_at out 0 handshake_magic) 4)

unfoldable pub encode_handshake : Bytes → ℕ → Option Bytes
encode_handshake out capacity =
    if ltb capacity handshake_size
    then none
    else some (store_u32 schema_hash (write_at out 0 handshake_magic) 4)

unfoldable pub validate_handshake_with_hash : Bytes → ℕ → ℕ → Bool
validate_handshake_with_hash data_ size expected =
    if ltb size handshake_size
    then false
    else if not (bytes_equal (take 4 data_) handshake_magic)
    then false
    else load_u32 data_ 4 == expected

unfoldable pub validate_handshake : Bytes → ℕ → Bool
validate_handshake data_ size =
    if ltb size handshake_size
    then false
    else if not (bytes_equal (take 4 data_) handshake_magic)
    then false
    else load_u32 data_ 4 == schema_hash

unfoldable pub extract_schema_hash : Bytes → ℕ → ℕ
extract_schema_hash data_ size = if ltb size handshake_size then 0 else load_u32 data_ 4
