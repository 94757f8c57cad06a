-- ===== src/Packet/Encode.antt =====
-- `EncodeTypedPacket` of packet.h.
use bcnp.Base.{
  ℕ, ◌+◌, ◌-◌, Option, none, some, List, [], ◌∷◌, ◌++◌, ltb, if◌then◌else◌, take, length, set,
  replicate, write_at,
}
use bcnp.Base.Words.{u64, u16}
use bcnp.Wire.{Bytes, store_u16, store_u32}
use bcnp.Crc.{compute_crc32}
use bcnp.Message.{MessageType}
use bcnp.Packet.Types.{
  TypedPacket, max_messages_per_packet, header_size, header_major_index, header_minor_index,
  header_flags_index, header_msg_type_index, header_msg_count_index, payload_end, packet_size,
}

module _ (t : MessageType) where
  -- `for (const auto& msg : packet.messages)`; `none` is the `return false` inside it.
  unfoldable pub encode_messages : List t.Msg → ℕ → Bytes → Option Bytes
  encode_messages [] offset output = some output
  encode_messages (m ∷ ms) offset output = elim (t.encode m) [
    | none ↦ none
    | some bs ↦ encode_messages ms (u64 (offset + t.wire_size)) (write_at output offset bs)
  ]

  -- The stores of the five header fields.
  unfoldable pub encode_header : TypedPacket t → Bytes → Bytes
  encode_header packet output =
      let major = set output header_major_index packet.header.major in
      let minor = set major header_minor_index packet.header.minor in
      let flags = set minor header_flags_index packet.header.flags in
      let type = store_u16 (u16 t.type_id) flags header_msg_type_index in
      store_u16 (u16 (length packet.messages)) type header_msg_count_index

  unfoldable pub encode_checksum : ℕ → Bytes → Bytes
  encode_checksum payload_size output =
      store_u32 (compute_crc32 (take payload_size output)) output payload_size

  -- The overload for a buffer: `none` for a null pointer. The result is the buffer with
  -- `bytesWritten`; `none` is `false`, with `bytesWritten` 0 and the buffer left in any state.
  unfoldable pub encode_typed_packet : TypedPacket t → Option Bytes → ℕ → Option (Bytes × ℕ)
  encode_typed_packet packet none capacity = none
  encode_typed_packet packet (some output) capacity =
      let count = length packet.messages in
      let payload_size = payload_end count t.wire_size in
      let required = packet_size count t.wire_size in
      if ltb max_messages_per_packet count
      then none
      else if ltb capacity required
      then none
      else elim (encode_messages packet.messages header_size (encode_header packet output)) [
        | none ↦ none
        | some written ↦ some (encode_checksum payload_size written, required)
      ]

  -- `std::vector::resize`
  abbrev pub resize : ℕ → Bytes → Bytes
  resize n bytes = take n bytes ++ replicate (n - length bytes) 0

  -- The overload for a vector.
  unfoldable pub encode_typed_packet_vector : TypedPacket t → Bytes → Option Bytes
  encode_typed_packet_vector packet output =
      let count = length packet.messages in
      let required = packet_size count t.wire_size in
      if ltb max_messages_per_packet count
      then none
      else elim (encode_typed_packet packet (some (resize required output)) required) [
        | none ↦ none
        | some (bytes, written) ↦ some (resize written bytes)
      ]
