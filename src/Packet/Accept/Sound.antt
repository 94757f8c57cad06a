-- ===== src/Packet/Accept/Sound.antt =====
-- Whatever the decoder accepts is a frame.
use bcnp.Base.{
  ℕ, ◌+◌, ◌*◌, ◌%◌, ◌^◌, ◌≤◌, ◌≡◌, sym, ap, ap₂, ◌∙◌, arith, some, [], ◌∷◌, ◌++◌, length,
  length-take, length-drop, All, take, drop, take-add, All-get_or,
}
use bcnp.Base.Words.{IsByte, IsU32}
use bcnp.Wire.{Bytes, load_u32, u32_bytes}
use bcnp.Wire.RoundTrip.{load_u16-IsU16}
use bcnp.Wire.Stores.{u16_bytes-load_u16, u32_bytes-load_u32}
use bcnp.Crc.{compute_crc32}
use bcnp.Packet.Types.{PacketHeader, PacketView, PacketError, payload_end, packet_size, no_error}
use bcnp.Packet.Decode.{parse_header, decode_packet_view_with_size}
use bcnp.Packet.Frame.{InRange, header_bytes, frame, sizes_fit}
use bcnp.Packet.Accept.{IsSupported}
use native.Mathlib.Nat.{mod-eq_of_lt}
use mathlib.Core.Path.{subst}

-- What the guards let through.
record Passed (bytes : Bytes) (size wire_size : ℕ) (v : PacketView) (error : PacketError)
    (consumed : ℕ) : Type 0 where
  header : v.header ≡ parse_header bytes
  payload : v.payload ≡ take (v.header.message_count * wire_size % 2 ^ 64) (drop 7 bytes)
  version : IsSupported v.header
  reaches_header : 7 ≤ size
  reaches_end : packet_size v.header.message_count wire_size ≤ size
  checksum :
      load_u32 bytes (payload_end v.header.message_count wire_size)
      ≡ compute_crc32 (take (payload_end v.header.message_count wire_size) bytes)
  no_failure : error ≡ no_error
  whole : consumed ≡ packet_size v.header.message_count wire_size

passed :
    (bytes : Bytes) (size wire_size : ℕ) (v : PacketView)
    → (decode_packet_view_with_size bytes size wire_size).view ≡ some v
    → Passed bytes size wire_size v
        (decode_packet_view_with_size bytes size wire_size).error
        (decode_packet_view_with_size bytes size wire_size).bytes_consumed
unfolding decode_packet_view_with_size
passed bytes size w v e = ground arith

-- The header that is read stores back to the first seven bytes.
header_bytes-parse_header :
    (bytes : Bytes)
    → All IsByte bytes
    → 7 ≤ length bytes
    → header_bytes (parse_header bytes) ≡ take 7 bytes
unfolding header_bytes parse_header
header_bytes-parse_header [] h le = absurd (omega arith)
header_bytes-parse_header (a ∷ []) h le = absurd (omega arith)
header_bytes-parse_header (a ∷ b ∷ []) h le = absurd (omega arith)
header_bytes-parse_header (a ∷ b ∷ c ∷ p) h le =
    ap₂ (λ x y. a ∷ b ∷ c ∷ (x ++ y)) (u16_bytes-load_u16 (a ∷ b ∷ c ∷ p) 3 h (omega arith))
      (u16_bytes-load_u16 (a ∷ b ∷ c ∷ p) 5 h (omega arith))
    ∙ ap (λ l. a ∷ b ∷ c ∷ l) (sym (split p))
  where
    split : (q : Bytes) → take 4 q ≡ take 2 q ++ take 2 (drop 2 q)
    split q = take-add 2 2 q

parse_header-InRange : (bytes : Bytes) → All IsByte bytes → InRange (parse_header bytes)
unfolding parse_header
parse_header-InRange bytes h = record {
  major_byte = All-get_or IsByte bytes 0 0 (omega arith) h;
  minor_byte = All-get_or IsByte bytes 1 0 (omega arith) h;
  flags_byte = All-get_or IsByte bytes 2 0 (omega arith) h;
  type_u16 = load_u16-IsU16 bytes 3;
  count_u16 = load_u16-IsU16 bytes 5;
}

-- A frame is put together from its parts in the buffer.
frame_of_parts :
    (bytes payload : Bytes) (h : PacketHeader) (n : ℕ)
    → header_bytes h ≡ take 7 bytes
    → payload ≡ take n (drop 7 bytes)
    → All IsByte bytes
    → 11 + n ≤ length bytes
    → load_u32 bytes (7 + n) ≡ compute_crc32 (take (7 + n) bytes)
    → frame h payload ≡ take (11 + n) bytes
unfolding frame
frame_of_parts bytes payload h n eh ep hb room crc =
    ap₂ (λ x y. x ++ u32_bytes y) covered (ap compute_crc32 covered ∙ sym crc)
    ∙ ap (λ l. take (7 + n) bytes ++ l) (u32_bytes-load_u32 bytes (7 + n) hb (omega arith))
    ∙ sym (take-add (7 + n) 4 bytes)
    ∙ ap (λ k. take k bytes) total
  where
    covered : header_bytes h ++ payload ≡ take (7 + n) bytes
    covered = ap₂ (λ x y. x ++ y) eh ep ∙ sym (take-add 7 n bytes)

    total : 7 + n + 4 ≡ 11 + n
    total = omega arith

-- Whatever view the decoder returns, the bytes that it consumed are the frame of that view: the
-- version is the supported one, the fields fit, the payload is `message_count` messages long, no
-- byte behind the given size was needed, and the error is `None`.
pub decode_sound :
    (bytes : Bytes) (size wire_size : ℕ) (v : PacketView)
    → All IsByte bytes
    → size ≤ length bytes
    → IsU32 wire_size
    → (decode_packet_view_with_size bytes size wire_size).view ≡ some v
    → IsSupported v.header
      × InRange v.header
      × (length v.payload ≡ v.header.message_count * wire_size)
      × ((decode_packet_view_with_size bytes size wire_size).error ≡ no_error)
      × ((decode_packet_view_with_size bytes size wire_size).bytes_consumed ≡ 11 + length v.payload)
      × (11 + length v.payload ≤ size)
      × (frame v.header v.payload ≡ take (11 + length v.payload) bytes)
decode_sound bytes size w v hb hs hw e =
    let p = passed bytes size w v e in
    let r : InRange v.header = subst InRange (sym p.header) (parse_header-InRange bytes hb) in
    let n = v.header.message_count * w in
    let (small, ends, total) = sizes_fit v.header.message_count w r.count_u16 hw in
    let ep : v.payload ≡ take n (drop 7 bytes) =
      p.payload ∙ ap (λ k. take k (drop 7 bytes)) (mod-eq_of_lt (omega arith)) in
    let len : length v.payload ≡ n =
      ap length ep
      ∙ omega (arith, length-take n (drop 7 bytes), length-drop 7 bytes, p.reaches_end) in
    let eh : header_bytes v.header ≡ take 7 bytes =
      ap header_bytes p.header
      ∙ header_bytes-parse_header bytes hb (omega (arith, p.reaches_header)) in
    (
      p.version,
      r,
      len,
      p.no_failure,
      omega (arith, p.whole),
      omega (arith, p.reaches_end),
      frame_of_parts bytes v.payload v.header n eh ep hb (omega (arith, p.reaches_end)) (
            ap (load_u32 bytes) (sym ends)
            ∙ p.checksum
            ∙ ap (λ k. compute_crc32 (take k bytes)) ends)
          ∙ ap (λ k. take k bytes) (omega arith),
    )
