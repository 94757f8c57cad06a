-- ===== src/Jni/Checksum.antt =====
-- The byte order of the checksum that the Java binding writes.
use bcnp.Base.{
  ℕ, ◌+◌, ◌*◌, ◌/◌, ◌%◌, ◌^◌, ◌≤◌, ◌<◌, ◌==◌, ◌≡◌, refl, sym, ap, ◌∙◌, arith, Bool, ◌&&◌, some,
  ◌++◌, append_assoc, if◌then◌else◌, length, drop, take-all, All, Bool-cases, inl, inr,
}
use bcnp.Base.Words.{IsByte, IsU32, u16}
use bcnp.Wire.{Bytes, load_u32, u32_bytes}
use bcnp.Wire.RoundTrip.{load_u32-eq-sum}
use bcnp.Wire.Stores.{u32_bytes-load_u32}
use bcnp.Crc.{compute_crc32}
use bcnp.Crc.Register.{compute_crc32-IsU32}
use bcnp.Base.Bits.{bit_and_byte}
use bcnp.Packet.Types.{PacketHeader, no_error, checksum_mismatch}
use bcnp.Packet.Decode.{fail, decode_packet_view_with_size}
use bcnp.Packet.Frame.{body, frame, body-All-IsByte}
use bcnp.Packet.Accept.{with_checksum, decode-frame, decode_wrong_checksum}
use bcnp.Base.Choices.{pick_true, pick_false}
use bcnp.Jni.{checksum_bytes, encode_packet}
use bcnp.Jni.Encoded.{
  java_header, java_header-InRange, length-checksum_bytes, checksum_bytes-All-IsByte,
  encode_packet_lem,
}

-- The word that a reader of big-endian words sees.
abbrev pub swapped : ℕ → ℕ
swapped crc = load_u32 (checksum_bytes crc) 0

swapped-IsU32 : (crc : ℕ) → IsU32 (swapped crc)
unfolding checksum_bytes
swapped-IsU32 crc = omega (
  arith,
  load_u32-eq-sum (checksum_bytes crc) 0 (omega arith) (omega arith) (omega arith) (omega arith),
)

-- The four bytes of a word are the same from both ends.
abbrev pub is_palindrome : ℕ → Bool
is_palindrome crc = crc / 2 ^ 24 == crc % 2 ^ 8 && crc / 2 ^ 16 % 2 ^ 8 == crc / 2 ^ 8 % 2 ^ 8

swapped-eq-sum :
    (crc : ℕ)
    → swapped crc
      ≡ crc % 2 ^ 8 * 2 ^ 24
        + crc / 2 ^ 8 % 2 ^ 8 * 2 ^ 16
        + crc / 2 ^ 16 % 2 ^ 8 * 2 ^ 8
        + crc / 2 ^ 24 % 2 ^ 8
unfolding checksum_bytes
swapped-eq-sum crc = omega (
  arith,
  load_u32-eq-sum (checksum_bytes crc) 0 (omega arith) (omega arith) (omega arith) (omega arith),
  bit_and_byte crc,
  bit_and_byte (crc / 2 ^ 8),
  bit_and_byte (crc / 2 ^ 16),
  bit_and_byte (crc / 2 ^ 24),
)

swapped_same : (crc : ℕ) → IsU32 crc → (swapped crc == crc) ≡ is_palindrome crc
swapped_same crc h = ground (arith, swapped-eq-sum crc)

checksum_bytes-swapped : (crc : ℕ) → u32_bytes (swapped crc) ≡ checksum_bytes crc
checksum_bytes-swapped crc =
    u32_bytes-load_u32 (checksum_bytes crc) 0 (checksum_bytes-All-IsByte crc)
      (omega (arith, length-checksum_bytes crc))
    ∙ take-all 4 (checksum_bytes crc) (omega (arith, length-checksum_bytes crc))

frame_is :
    (h : PacketHeader) (payload : Bytes)
    → body h payload ++ u32_bytes (compute_crc32 (body h payload)) ≡ frame h payload
unfolding frame
frame_is h payload = refl

decode_swapped :
    (dest payload : Bytes) (max_length f t c wire_size : ℕ)
    → 11 + length payload ≤ max_length
    → max_length ≤ length dest
    → max_length < 2 ^ 31
    → All IsByte payload
    → IsU32 wire_size
    → length payload ≡ u16 c * wire_size
    → let h = java_header f t c in
      let crc = compute_crc32 (body h payload) in
      let (size, out) =
        encode_packet (some dest) max_length t f (some payload) (length payload) c in
      decode_packet_view_with_size out size wire_size ≡ (
        if swapped crc == crc
        then record {
          view = some (record { header = h; payload = payload });
          error = no_error;
          bytes_consumed = 11 + length payload;
        }
        else fail checksum_mismatch (11 + length payload))
decode_swapped dest payload max_length f t c w room fits small bytes hw counts =
    let h = java_header f t c in
    let r = java_header-InRange f t c in
    let crc = compute_crc32 (body h payload) in
    let rest = drop (11 + length payload) dest in
    let n = 11 + length payload in
    ap (λ (p : ℕ × Bytes). decode_packet_view_with_size p.1 p.0 w)
      (encode_packet_lem dest payload max_length f t c room fits small)
    ∙ ap (λ l. decode_packet_view_with_size (body h payload ++ (l ++ rest)) n w)
        (sym (checksum_bytes-swapped crc))
    ∙ elim (Bool-cases (swapped crc == crc)) [
      | inl same ↦
          let e : swapped crc ≡ crc = ground (arith, same) in
          ap (λ s. decode_packet_view_with_size (with_checksum h payload s rest) n w) e
          ∙ ap (λ l. decode_packet_view_with_size l n w)
              (sym (append_assoc (body h payload) (u32_bytes crc) rest)
                ∙ ap (λ l. l ++ rest) (frame_is h payload))
          ∙ decode-frame h payload rest n w r (refl, refl) bytes hw counts (omega arith)
          ∙ sym (pick_true _ _ same)
      | inr other ↦
          decode_wrong_checksum h payload rest (swapped crc) n w r (refl, refl) (swapped-IsU32 crc)
            hw counts (omega arith) (ground (arith, other))
          ∙ sym (pick_false _ _ other)
    ]

-- A packet that the Java binding encodes for a type of the given wire size, into a buffer with room for
-- it and of less than 2 ^ 31 bytes, with the payload of as many messages as it is told, is accepted by
-- the decoder exactly if the four bytes of the checksum of its header and payload are the same from
-- both ends; all others are refused as a checksum mismatch.
pub java_packet_decodes :
    (dest payload : Bytes) (max_length f t c wire_size : ℕ)
    → 11 + length payload ≤ max_length
    → max_length ≤ length dest
    → max_length < 2 ^ 31
    → All IsByte payload
    → IsU32 wire_size
    → length payload ≡ u16 c * wire_size
    → let h = java_header f t c in
      let crc = compute_crc32 (body h payload) in
      let (size, out) =
        encode_packet (some dest) max_length t f (some payload) (length payload) c in
      decode_packet_view_with_size out size wire_size ≡ (
        if is_palindrome crc
        then record {
          view = some (record { header = h; payload = payload });
          error = no_error;
          bytes_consumed = 11 + length payload;
        }
        else fail checksum_mismatch (11 + length payload))
java_packet_decodes dest payload max_length f t c w room fits small bytes hw counts =
    let h = java_header f t c in
    decode_swapped dest payload max_length f t c w room fits small bytes hw counts
    ∙ ap
        (λ b.
          if b
          then record {
            view = some (record { header = h; payload = payload });
            error = no_error;
            bytes_consumed = 11 + length payload;
          }
          else fail checksum_mismatch (11 + length payload))
        (swapped_same (compute_crc32 (body h payload)) (
          compute_crc32-IsU32 (body h payload)
            (body-All-IsByte h payload (java_header-InRange f t c) bytes)))
