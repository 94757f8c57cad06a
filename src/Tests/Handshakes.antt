-- ===== src/Tests/Handshakes.antt =====
-- A handshake for the schema hash of the generated header.
use bcnp.Base.{◌≡◌, ◌↔◌, ◌≤◌, refl, arith, true, [], ◌∷◌, replicate, take}
use bcnp.Wire.{Bytes, u32_bytes}
use bcnp.Handshake.{schema_hash, validate_handshake_with_hash}
use bcnp.Handshake.Laws.{handshake_of, validate_handshake_iff}

abbrev room : Bytes
room = replicate 10 0

abbrev sent : Bytes
sent = b'B' ∷ b'C' ∷ b'N' ∷ b'P' ∷ 0x56 ∷ 0x67 ∷ 0xF8 ∷ 0x81 ∷ []

sent_of_schema_hash : handshake_of schema_hash ≡ sent
unfolding u32_bytes
sent_of_schema_hash = refl

validate_handshake_iff_example :
    (validate_handshake_with_hash sent 8 schema_hash ≡ true)
    ↔ ((8 ≤ 8) × (take 8 sent ≡ handshake_of schema_hash))
validate_handshake_iff_example = validate_handshake_iff sent schema_hash (omega arith) (omega arith)
