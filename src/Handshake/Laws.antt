-- ===== src/Handshake/Laws.antt =====
-- Which bytes are a valid handshake, and what the encoder writes.
use bcnp.Base.{
  ℕ, ◌≤◌, ◌≡◌, ◌↔◌, refl, sym, ap, ap₂, ◌∙◌, arith, true, some, [], ◌∷◌, ◌++◌, length, All, take,
  drop, take-add, take-take, append-nil, some_injective, ◌==◌, le→ltb,
}
use bcnp.Base.Words.{IsByte, IsU32}
use bcnp.Wire.{Bytes, load_u32, u32_bytes, store_u32}
use bcnp.Wire.RoundTrip.{load_u32-u32_bytes, load_u32-append, load_u32-take}
use bcnp.Wire.Stores.{u32_bytes-load_u32}
use bcnp.Handshake.{
  handshake_magic, bytes_equal, encode_handshake_with_hash, validate_handshake_with_hash,
  extract_schema_hash,
}

bytes_equal-eq : (xs ys : Bytes) → bytes_equal xs ys ≡ true → xs ≡ ys
unfolding bytes_equal
bytes_equal-eq [] [] e = refl
bytes_equal-eq [] (y ∷ ys) e = cc
bytes_equal-eq (x ∷ xs) [] e = cc
bytes_equal-eq (x ∷ xs) (y ∷ ys) e = ground (arith, bytes_equal-eq xs ys)

bytes_equal_self : (xs : Bytes) → bytes_equal xs xs ≡ true
unfolding bytes_equal
bytes_equal_self [] = refl
bytes_equal_self (x ∷ xs) = ground (arith, bytes_equal_self xs)

-- The eight bytes of a handshake.
abbrev pub handshake_of : ℕ → Bytes
handshake_of hash = handshake_magic ++ u32_bytes hash

-- The encoder puts the handshake at the front of a buffer of eight bytes or more, and leaves the
-- rest of it alone.
pub encode_handshake_with_hash_lem :
    (out : Bytes) (capacity hash : ℕ)
    → 8 ≤ capacity
    → capacity ≤ length out
    → encode_handshake_with_hash out capacity hash ≡ some (handshake_of hash ++ drop 8 out)
unfolding encode_handshake_with_hash store_u32 u32_bytes
encode_handshake_with_hash_lem (a ∷ b ∷ c ∷ d ∷ e ∷ f ∷ g ∷ h ∷ rest) capacity hash h8 fits =
    rw (le→ltb capacity 8 h8)
encode_handshake_with_hash_lem _ capacity hash h8 fits = absurd (omega arith)

pub read_hash :
    (hash : ℕ) (rest : Bytes) → IsU32 hash → load_u32 (handshake_of hash ++ rest) 4 ≡ hash
read_hash hash rest h =
    load_u32-append handshake_magic (u32_bytes hash ++ rest) ∙ load_u32-u32_bytes hash rest h

-- What the test asks, in three parts.
validate_parts :
    (bytes : Bytes) (expected : ℕ)
    → validate_handshake_with_hash bytes (length bytes) expected ≡ true
    → (8 ≤ length bytes)
      × (bytes_equal (take 4 bytes) handshake_magic ≡ true)
      × (load_u32 bytes 4 ≡ expected)
unfolding validate_handshake_with_hash
validate_parts bytes expected e = ground arith

validate_of_parts :
    (bytes : Bytes) (expected : ℕ)
    → 8 ≤ length bytes
    → bytes_equal (take 4 bytes) handshake_magic ≡ true
    → load_u32 bytes 4 ≡ expected
    → validate_handshake_with_hash bytes (length bytes) expected ≡ true
unfolding validate_handshake_with_hash
validate_of_parts bytes expected le m h = ground arith

-- A buffer is a valid handshake for a hash exactly if it holds eight bytes and begins with the
-- magic and that hash, big-endian.
pub validate_handshake_iff :
    (bytes : Bytes) (expected : ℕ)
    → All IsByte bytes
    → IsU32 expected
    → (validate_handshake_with_hash bytes (length bytes) expected ≡ true)
      ↔ ((8 ≤ length bytes) × (take 8 bytes ≡ handshake_of expected))
validate_handshake_iff bytes expected hb he = (accepts, accepted)
  where
    accepts :
        validate_handshake_with_hash bytes (length bytes) expected ≡ true
        → (8 ≤ length bytes) × (take 8 bytes ≡ handshake_of expected)
    accepts e =
        let (le, magic, hash) = validate_parts bytes expected e in
        (
          le,
          take-add 4 4 bytes
              ∙ ap₂ ◌++◌ (bytes_equal-eq (take 4 bytes) handshake_magic magic)
                  (sym (u32_bytes-load_u32 bytes 4 hb (omega arith)) ∙ ap u32_bytes hash),
        )

    accepted :
        (8 ≤ length bytes) × (take 8 bytes ≡ handshake_of expected)
        → validate_handshake_with_hash bytes (length bytes) expected ≡ true
    accepted (le, front) =
        validate_of_parts bytes expected le
          (ap (λ l. bytes_equal l handshake_magic)
              (sym (take-take 4 8 bytes (omega arith)) ∙ ap (take 4) front)
            ∙ bytes_equal_self handshake_magic)
          (sym (load_u32-take 8 bytes 4 (omega arith))
            ∙ ap (λ l. load_u32 l 4) (front ∙ sym (append-nil (handshake_of expected)))
            ∙ read_hash expected [] he)

-- A handshake for one hash is accepted by a peer that expects another exactly if the hashes agree.
pub validate-encode_handshake :
    (out written : Bytes) (capacity hash expected : ℕ)
    → IsU32 hash
    → 8 ≤ capacity
    → capacity ≤ length out
    → encode_handshake_with_hash out capacity hash ≡ some written
    → (validate_handshake_with_hash written 8 expected ≡ (hash == expected))
      × (extract_schema_hash written 8 ≡ hash)
unfolding validate_handshake_with_hash extract_schema_hash
validate-encode_handshake out written capacity hash expected hh h8 fits e =
    let same = some_injective (sym e ∙ encode_handshake_with_hash_lem out capacity hash h8 fits) in
    let read : load_u32 written 4 ≡ hash =
      ap (λ l. load_u32 l 4) same ∙ read_hash hash (drop 8 out) hh in
    let magic : bytes_equal (take 4 written) handshake_magic ≡ true =
      ap (λ l. bytes_equal (take 4 l) handshake_magic) same ∙ bytes_equal_self handshake_magic in
    (rw (magic, read), read)
