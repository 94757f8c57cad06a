-- ===== src/Packet/Bounds.antt =====
-- The decoder reads no byte behind the given size, and what it reports as consumed.
use bcnp.Base.{
  ℕ, ◌*◌, ◌%◌, ◌^◌, ◌≤◌, ◌≡◌, ◌⊎◌, inl, inr, ◌↔◌, arith, take, take-take, take-drop-take,
  get_or-take, ltb, ltb→le, Bool-cases,
}
use bcnp.Base.Words.{IsU16, IsU32}
use bcnp.Wire.{Bytes}
use bcnp.Wire.RoundTrip.{load_u16-take, load_u32-take, load_u16-IsU16}
use bcnp.Packet.Types.{payload_end, packet_size, too_small, truncated}
use bcnp.Packet.Decode.{parse_header, decode_packet_view_with_size}
use bcnp.Packet.Frame.{sizes_fit}

parse_header-take :
    (bytes : Bytes) (size : ℕ) → 7 ≤ size → parse_header (take size bytes) ≡ parse_header bytes
unfolding parse_header
parse_header-take bytes size h = λ i. record {
  major = get_or-take size bytes 0 0 (omega arith) i;
  minor = get_or-take size bytes 1 0 (omega arith) i;
  flags = get_or-take size bytes 2 0 (omega arith) i;
  message_type = load_u16-take size bytes 3 (omega arith) i;
  message_count = load_u16-take size bytes 5 (omega arith) i;
}

parse_header-count : (bytes : Bytes) → IsU16 (parse_header bytes).message_count
unfolding parse_header
parse_header-count bytes = load_u16-IsU16 bytes 5

-- The decoder looks at no byte at `size` or behind: what stands there does not matter.
pub decode-take :
    (bytes : Bytes) (size wire_size : ℕ)
    → IsU32 wire_size
    → decode_packet_view_with_size (take size bytes) size wire_size
      ≡ decode_packet_view_with_size bytes size wire_size
unfolding decode_packet_view_with_size
decode-take bytes size w hw = elim (Bool-cases (ltb size 7)) [
  | inl short ↦ rw short
  | inr long ↦
      rw (parse_header-take bytes size (ltb→le size 7 long))
        (elim (Bool-cases (ltb size (packet_size count w))) [
          | inl cut ↦ rw cut
          | inr room ↦
              let (small, ends, total) = sizes_fit count w (parse_header-count bytes) hw in
              let fits : packet_size count w ≤ size = ltb→le size (packet_size count w) room in
              rw (
                load_u32-take size bytes (payload_end count w) (omega arith),
                take-take (payload_end count w) size bytes (omega arith),
                take-drop-take (count * w % 2 ^ 64) 7 size bytes (omega arith),
              )
        ])
]
  where
    count : ℕ
    count = (parse_header bytes).message_count

-- The decoder consumes nothing exactly where it waits for more bytes, and never more than the size.
pub decode_consumed :
    (bytes : Bytes) (size wire_size : ℕ)
    → IsU32 wire_size
    → let r = decode_packet_view_with_size bytes size wire_size in
      (r.bytes_consumed ≤ size)
      × ((r.bytes_consumed ≡ 0) ↔ ((r.error ≡ too_small) ⊎ (r.error ≡ truncated)))
unfolding decode_packet_view_with_size
decode_consumed bytes size w hw =
    ground (arith, sizes_fit (parse_header bytes).message_count w (parse_header-count bytes) hw)
