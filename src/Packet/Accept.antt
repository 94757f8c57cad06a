-- ===== src/Packet/Accept.antt =====
-- Which bytes the decoder accepts: exactly the frames of the supported version.
pub mod Sound
use bcnp.Base.{
  ℕ, zero, suc, ◌+◌, ◌-◌, ◌*◌, ◌%◌, ◌^◌, ◌≤◌, ◌<◌, ◌≡◌, refl, sym, ap, ap₂, ◌∙◌, ◌≢◌, arith, Option,
  none, some, List, [], ◌∷◌, ◌++◌, append_assoc, append-nil, length, length-append, length-take,
  length-drop, take-append-drop, All, All-append, take, drop, take-append, drop-append, le→ltb, ltb,
  ◌/=◌, bit_and,
}
use bcnp.Base.Words.{IsByte, IsU16, IsU32}
use bcnp.Wire.{Bytes, byte_at, load_u32, u32_bytes}
use bcnp.Wire.RoundTrip.{load_u32-append, load_u32-u32_bytes}
use bcnp.Crc.{compute_crc32}
use bcnp.Crc.Register.{compute_crc32-IsU32}
use bcnp.Packet.Types.{
  PacketHeader, PacketView, DecodeViewResult, payload_end, packet_size, no_error, checksum_mismatch,
}
use bcnp.Packet.Decode.{parse_header, fail, decode_packet_view_with_size}
use bcnp.Packet.Frame.{
  InRange, header_bytes, body, frame, length-body, length-frame, length-header_bytes, sizes_fit,
  body-All-IsByte, parse_header-header_bytes,
}

-- What the header must satisfy, in any buffer that reaches the checksum.
abbrev pub IsSupported : PacketHeader → Type 0
IsSupported h = (h.major ≡ 3) × (h.minor ≡ 2)

-- The path through the guards.
decode_checked :
    (bytes : Bytes) (size wire_size : ℕ) (h : PacketHeader)
    → parse_header bytes ≡ h
    → IsSupported h
    → h.message_count ≤ 65535
    → 7 ≤ size
    → packet_size h.message_count wire_size ≤ size
    → (load_u32 bytes (payload_end h.message_count wire_size)
        ≡ compute_crc32 (take (payload_end h.message_count wire_size) bytes))
    → decode_packet_view_with_size bytes size wire_size ≡ record {
      view = some (record {
        header = h;
        payload = take (h.message_count * wire_size % 2 ^ 64) (drop 7 bytes);
      });
      error = no_error;
      bytes_consumed = packet_size h.message_count wire_size;
    }
unfolding decode_packet_view_with_size
decode_checked bytes size w h e v hc h7 hs crc = ground (arith, e)

decode_mismatch :
    (bytes : Bytes) (size wire_size : ℕ) (h : PacketHeader)
    → parse_header bytes ≡ h
    → IsSupported h
    → h.message_count ≤ 65535
    → 7 ≤ size
    → packet_size h.message_count wire_size ≤ size
    → ◌≢◌
        (load_u32 bytes (payload_end h.message_count wire_size))
        (compute_crc32 (take (payload_end h.message_count wire_size) bytes))
    → decode_packet_view_with_size bytes size wire_size
      ≡ fail checksum_mismatch (packet_size h.message_count wire_size)
unfolding decode_packet_view_with_size
decode_mismatch bytes size w h e v hc h7 hs crc = ground (arith, e)

-- A header and a payload with some 32-bit word in the place of the checksum.
abbrev pub with_checksum : PacketHeader → Bytes → ℕ → Bytes → Bytes
with_checksum h payload sum rest = body h payload ++ (u32_bytes sum ++ rest)

module _ (h : PacketHeader) (payload : Bytes) (sum : ℕ) (rest : Bytes) where
  header_of : InRange h → parse_header (with_checksum h payload sum rest) ≡ h
  header_of r =
      ap parse_header (append_assoc (header_bytes h) payload (u32_bytes sum ++ rest))
      ∙ parse_header-header_bytes h (payload ++ (u32_bytes sum ++ rest)) r

  body_of :
      (n : ℕ) → n ≡ 7 + length payload → take n (with_checksum h payload sum rest) ≡ body h payload
  body_of n e =
      take-append n (body h payload) (u32_bytes sum ++ rest) (length-body h payload ∙ sym e)

  sum_of :
      (n : ℕ)
      → n ≡ 7 + length payload
      → IsU32 sum
      → load_u32 (with_checksum h payload sum rest) n ≡ sum
  sum_of n e fits =
      ap (load_u32 (with_checksum h payload sum rest)) (e ∙ sym (length-body h payload))
      ∙ load_u32-append (body h payload) (u32_bytes sum ++ rest)
      ∙ load_u32-u32_bytes sum rest fits

  payload_in :
      (n : ℕ) → n ≡ length payload → take n (drop 7 (with_checksum h payload sum rest)) ≡ payload
  payload_in n e =
      ap (λ l. take n (drop 7 l)) (append_assoc (header_bytes h) payload (u32_bytes sum ++ rest))
      ∙ ap (take n) (
          drop-append 7 (header_bytes h) (payload ++ (u32_bytes sum ++ rest))
            (length-header_bytes h))
      ∙ take-append n payload (u32_bytes sum ++ rest) (sym e)

-- A frame of the supported version is accepted, whatever follows it: the view holds its header and
-- payload, and the whole frame is consumed.
pub decode-frame :
    (h : PacketHeader) (payload rest : Bytes) (size wire_size : ℕ)
    → InRange h
    → IsSupported h
    → All IsByte payload
    → IsU32 wire_size
    → length payload ≡ h.message_count * wire_size
    → 11 + length payload ≤ size
    → decode_packet_view_with_size (frame h payload ++ rest) size wire_size ≡ record {
      view = some (record { header = h; payload = payload });
      error = no_error;
      bytes_consumed = 11 + length payload;
    }
unfolding frame
decode-frame h payload rest size w r v hp hw e room =
    let sum = compute_crc32 (body h payload) in
    let (small, ends, total) = sizes_fit h.message_count w r.count_u16 hw in
    let fits : IsU32 sum = compute_crc32-IsU32 (body h payload) (body-All-IsByte h payload r hp) in
    let at : payload_end h.message_count w ≡ 7 + length payload = omega arith in
    ap (λ l. decode_packet_view_with_size l size w)
      (append_assoc (body h payload) (u32_bytes sum) rest)
    ∙ decode_checked (with_checksum h payload sum rest) size w h (header_of h payload sum rest r) v
        (omega (arith, r.count_u16)) (omega arith) (omega arith)
        (sum_of h payload sum rest _ at fits
          ∙ ap compute_crc32 (sym (body_of h payload sum rest _ at)))
    ∙ (λ i. record {
      view = some (record {
        header = h;
        payload = payload_in h payload sum rest (h.message_count * w % 2 ^ 64) (omega arith) i;
      });
      error = no_error;
      bytes_consumed =
          (let q : packet_size h.message_count w ≡ 11 + length payload = omega arith in q) i;
    })

-- With another word than its checksum behind it, a well-formed body is refused as a checksum
-- mismatch, and the whole frame is reported as consumed.
pub decode_wrong_checksum :
    (h : PacketHeader) (payload rest : Bytes) (sum size wire_size : ℕ)
    → InRange h
    → IsSupported h
    → IsU32 sum
    → IsU32 wire_size
    → length payload ≡ h.message_count * wire_size
    → 11 + length payload ≤ size
    → sum ≢ compute_crc32 (body h payload)
    → decode_packet_view_with_size (with_checksum h payload sum rest) size wire_size
      ≡ fail checksum_mismatch (11 + length payload)
decode_wrong_checksum h payload rest sum size w r v hs hw e room ne =
    let (small, ends, total) = sizes_fit h.message_count w r.count_u16 hw in
    let at : payload_end h.message_count w ≡ 7 + length payload = omega arith in
    decode_mismatch (with_checksum h payload sum rest) size w h (header_of h payload sum rest r) v
      (omega (arith, r.count_u16)) (omega arith) (omega arith)
      (λ q. ne (
        sym (sum_of h payload sum rest _ at hs)
        ∙ q
        ∙ ap compute_crc32 (body_of h payload sum rest _ at)))
    ∙ ap (fail checksum_mismatch) (omega arith)
