-- ===== src/Packet/Decode.antt =====
-- The decoding functions of packet.cpp and packet.h.
use bcnp.Base.{
  ℕ, zero, suc, ◌*◌, ◌||◌, Option, none, some, List, [], ◌∷◌, ◌++◌, ltb, ◌/=◌, if◌then◌else◌, take,
  drop,
}
use bcnp.Base.Words.{u64}
use bcnp.Wire.{Bytes, byte_at, load_u16, load_u32}
use bcnp.Crc.{compute_crc32}
use bcnp.Message.{MessageType, MessageInfo, get_message_info}
use bcnp.Packet.Types.{
  PacketHeader, PacketView, TypedPacket, PacketError, DecodeViewResult, header_size,
  max_messages_per_packet, protocol_major, protocol_minor, header_major_index, header_minor_index,
  header_flags_index, header_msg_type_index, header_msg_count_index, payload_end, packet_size,
}
use bcnp.Packet.Types.{
  no_error, too_small, unsupported_version, too_many_messages, truncated, checksum_mismatch,
  unknown_message_type,
}

abbrev pub fail : PacketError → ℕ → DecodeViewResult
fail e consumed = record { view = none; error = e; bytes_consumed = consumed }

-- The header as it stands in the first seven bytes.
unfoldable pub parse_header : Bytes → PacketHeader
parse_header data_ = record {
  major = byte_at data_ header_major_index;
  minor = byte_at data_ header_minor_index;
  flags = byte_at data_ header_flags_index;
  message_type = load_u16 data_ header_msg_type_index;
  message_count = load_u16 data_ header_msg_count_index;
}

-- `data` points to at least `size` bytes.
unfoldable pub decode_packet_view_with_size : Bytes → ℕ → ℕ → DecodeViewResult
decode_packet_view_with_size data_ size wire_size =
    let header = parse_header data_ in
    let payload_size = payload_end header.message_count wire_size in
    let expected_size = packet_size header.message_count wire_size in
    if ltb size header_size
    then fail too_small 0
    else if header.major /= protocol_major || header.minor /= protocol_minor
    then fail unsupported_version 1
    else if ltb max_messages_per_packet header.message_count
    then fail too_many_messages 1
    else if ltb size expected_size
    then fail truncated 0
    else if load_u32 data_ payload_size /= compute_crc32 (take payload_size data_)
    then fail checksum_mismatch expected_size
    else record {
      view = some (record {
        header = header;
        payload = take (u64 (header.message_count * wire_size)) (drop header_size data_);
      });
      error = no_error;
      bytes_consumed = expected_size;
    }

module _ (registry : List MessageInfo) where
  unfoldable pub decode_packet_view : Bytes → ℕ → DecodeViewResult
  decode_packet_view data_ size =
      if ltb size header_size
      then fail too_small 0
      else elim (get_message_info registry (load_u16 data_ header_msg_type_index)) [
        | none ↦ fail unknown_message_type 1
        | some info ↦ decode_packet_view_with_size data_ size info.wire_size
      ]

  -- `PacketView::GetPayloadSize`
  unfoldable pub get_payload_size : PacketView → ℕ
  get_payload_size v = elim (get_message_info registry v.header.message_type) [
    | none ↦ 0
    | some info ↦ u64 (info.wire_size * v.header.message_count)
  ]

module _ (t : MessageType) where
  -- `DecodePacketViewAs`
  unfoldable pub decode_packet_view_as : Bytes → ℕ → DecodeViewResult
  decode_packet_view_as data_ size = decode_packet_view_with_size data_ size t.wire_size

  -- The loop over the messages that are left, from `ptr` on; `out` is `packet.messages`.
  unfoldable pub decode_messages : ℕ → Bytes → List t.Msg → Option (List t.Msg)
  decode_messages zero ptr out = some out
  decode_messages (suc n) ptr out = elim (t.decode ptr) [
    | none ↦ none
    | some m ↦ decode_messages n (drop t.wire_size ptr) (out ++ (m ∷ []))
  ]

  unfoldable pub decode_typed_packet : PacketView → Option (TypedPacket t)
  decode_typed_packet v =
      if v.header.message_type /= t.type_id
      then none
      else elim (decode_messages v.header.message_count v.payload []) [
        | none ↦ none
        | some ms ↦ some (record { header = v.header; messages = ms })
      ]
