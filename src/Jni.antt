-- ===== src/Jni.antt =====
-- The functions of java/src/main/cpp/bcnp_jni.cpp. A `jint` is its 32-bit pattern, and a buffer the list
-- of its bytes from its address on; `none` is an object that is null or has no address. The calls back
-- into the Java virtual machine, which store a result, are values; a handle is the parser itself.
pub mod Encoded
pub mod Checksum
pub mod Streams
use bcnp.Base.{
  ℕ, ◌+◌, ◌-◌, ◌^◌, ◌==◌, Bool, true, false, not, ◌&&◌, ◌||◌, Option, none, some, List, [], ◌∷◌,
  ◌++◌, ltb, bit_and, if◌then◌else◌, length, take, drop, set, write_at,
}
use bcnp.Base.Words.{u8, u16, u32, u64, ◌>>>◌}
use bcnp.Wire.{Bytes, u16_bytes}
use bcnp.Crc.{compute_crc32}
use bcnp.Message.{MessageInfo, get_message_info}
use bcnp.Packet.Types.{
  PacketView, PacketError, no_error, header_size, checksum_size, protocol_major, protocol_minor,
}
use bcnp.Packet.Decode.{decode_packet_view}
use bcnp.Parser.{StreamParser, Event, packet, error, new_parser}
use bcnp.Parser.Loop.{push}

-- The test `n > 0` of a `jint`.
abbrev pub is_positive : ℕ → Bool
is_positive n = ltb 0 n && ltb n (2 ^ 31)

-- `static_cast<std::size_t>` of a `jint`, which extends the sign.
abbrev pub size_of : ℕ → ℕ
size_of n = if ltb n (2 ^ 31) then n else n + 2 ^ 64 - 2 ^ 32

-- -1 and -2
abbrev pub bad_buffer : ℕ
bad_buffer = 2 ^ 32 - 1

abbrev pub too_long : ℕ
too_long = 2 ^ 32 - 2

-- The offset is inside the buffer.
unfoldable pub get_buffer_address : Option Bytes → ℕ → Option Bytes
get_buffer_address none offset = none
get_buffer_address (some buffer) offset = some (drop offset buffer)

-- What is stored into the result object: `setOk` with the slice of the payload, or `setError`.
pub data DecodeResult : Type 0 where
  no_buffer : DecodeResult
  set_ok : ℕ → ℕ → ℕ → ℕ → ℕ → DecodeResult
  set_error : PacketError → ℕ → DecodeResult

abbrev is_no_error : PacketError → Bool
is_no_error no_error = true
is_no_error _ = false

unfoldable pub decode_packet : List MessageInfo → Option Bytes → ℕ → ℕ → DecodeResult
decode_packet registry buffer offset size = elim (get_buffer_address buffer offset) [
  | none ↦ no_buffer
  | some data_ ↦
      if not (is_positive size)
      then no_buffer
      else (let r = decode_packet_view registry data_ (size_of size) in
          elim r.view [
            | none ↦ set_error r.error (u32 r.bytes_consumed)
            | some view ↦
                if not (is_no_error r.error)
                then set_error r.error (u32 r.bytes_consumed)
                else set_ok (u32 r.bytes_consumed) view.header.message_type
                    view.header.message_count (u32 (offset + header_size))
                    (u32 (length view.payload))
          ])
]

-- The bytes of the checksum as they are written, the lowest one first.
unfoldable pub checksum_bytes : ℕ → Bytes
checksum_bytes crc =
    u8 (bit_and crc 0xff)
    ∷ u8 (bit_and (crc >>> 8) 0xff)
    ∷ u8 (bit_and (crc >>> 16) 0xff)
    ∷ u8 (bit_and (crc >>> 24) 0xff)
    ∷ []

unfoldable pub write_header : ℕ → ℕ → ℕ → Bytes → Bytes
write_header flags message_type message_count dest =
    let version = set (set dest 0 protocol_major) 1 protocol_minor in
    let typed = write_at (set version 2 (u8 flags)) 3 (u16_bytes (u16 message_type)) in
    write_at typed 5 (u16_bytes (u16 message_count))

unfoldable pub write_checksum : ℕ → Bytes → Bytes
write_checksum size dest = write_at dest size (checksum_bytes (compute_crc32 (take size dest)))

-- What is returned, and the bytes from the address of the buffer on. `kCrcSize`, which the source
-- declares nowhere, is taken as 4, the size of a checksum, and the message type as its 16-bit number. `payload` and `dest` are what
-- `GetBufferAddress` gives.
unfoldable pub encode_packet : Option Bytes → ℕ → ℕ → ℕ → Option Bytes → ℕ → ℕ → ℕ × Bytes
encode_packet none max_length message_type flags payload payload_length message_count =
    (bad_buffer, [])
encode_packet (some dest) max_length message_type flags none payload_length message_count =
    let total = u64 (header_size + size_of payload_length + checksum_size) in
    let headed = write_header flags message_type message_count dest in
    if not (is_positive max_length) || is_positive payload_length
    then (bad_buffer, dest)
    else if ltb (size_of max_length) total
    then (too_long, dest)
    else (u32 total, write_checksum (u64 (header_size + size_of payload_length)) headed)
encode_packet (some dest) max_length message_type flags (some payload) payload_length
      message_count =
    let size = size_of payload_length in
    let total = u64 (header_size + size + checksum_size) in
    let headed = write_header flags message_type message_count dest in
    let filled =
      if is_positive payload_length
      then write_at headed header_size (take size payload)
      else headed in
    if not (is_positive max_length)
    then (bad_buffer, dest)
    else if ltb (size_of max_length) total
    then (too_long, dest)
    else (u32 total, write_checksum (u64 (header_size + size)) filled)

unfoldable pub compute_buffer_crc32 : Option Bytes → ℕ → ℕ
compute_buffer_crc32 none size = 0
compute_buffer_crc32 (some data_) size =
    if not (is_positive size) then 0 else compute_crc32 (take (size_of size) data_)

unfoldable pub get_message_wire_size : List MessageInfo → ℕ → ℕ
get_message_wire_size registry message_type = elim (get_message_info registry (u16 message_type)) [
  | none ↦ 0
  | some info ↦ u32 info.wire_size
]

pub record JavaStreamParser : Type 0 where
  pub parser : StreamParser
  pub pending_packets : List PacketView

unfoldable pub create_stream_parser : ℕ → JavaStreamParser
create_stream_parser capacity = record {
  parser = new_parser true true (size_of capacity);
  pending_packets = [];
}

-- The callbacks: a packet is kept, an error is ignored.
abbrev pub views_of : List Event → List PacketView
views_of [] = []
views_of (packet v ∷ events) = v ∷ views_of events
views_of (error e ∷ events) = views_of events

unfoldable pub stream_parser_push :
    List MessageInfo → JavaStreamParser → Option Bytes → ℕ → Option JavaStreamParser
stream_parser_push registry j none size = some j
stream_parser_push registry j (some data_) size =
    if not (is_positive size)
    then some j
    else elim (push registry (record j.parser { events = [] }) (some (take (size_of size) data_))) [
      | none ↦ none
      | some p ↦
          some (record { parser = p; pending_packets = j.pending_packets ++ views_of p.events })
    ]

-- The size of the payload, the type and the count of the oldest packet.
unfoldable pub stream_parser_pop : JavaStreamParser → Option (ℕ × ℕ × ℕ) × JavaStreamParser
stream_parser_pop j = elim j.pending_packets [
  | [] ↦ (none, j)
  | v ∷ vs ↦ (
    some (u32 (length v.payload), v.header.message_type, v.header.message_count),
    record j { pending_packets = vs },
  )
]
