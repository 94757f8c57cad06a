-- ===== src/Packet/Types.antt =====
-- The data types and constants of packet.h. Sizes are `size_t`, that is modulo 2 ^ 64.
use bcnp.Base.{ℕ, ◌+◌, ◌*◌, Option, List, []}
use bcnp.Base.Words.{u64}
use bcnp.Wire.{Bytes}
use bcnp.Message.{MessageType}

abbrev pub checksum_size : ℕ
checksum_size = 4

abbrev pub max_messages_per_packet : ℕ
max_messages_per_packet = 65535

abbrev pub header_size : ℕ
header_size = 7

abbrev pub protocol_major : ℕ
protocol_major = 3

abbrev pub protocol_minor : ℕ
protocol_minor = 2

abbrev pub header_major_index : ℕ
header_major_index = 0

abbrev pub header_minor_index : ℕ
header_minor_index = 1

abbrev pub header_flags_index : ℕ
header_flags_index = 2

abbrev pub header_msg_type_index : ℕ
header_msg_type_index = 3

abbrev pub header_msg_count_index : ℕ
header_msg_count_index = 5

-- `struct PacketHeader`
pub record PacketHeader : Type 0 where
  pub major : ℕ
  pub minor : ℕ
  pub flags : ℕ
  pub message_type : ℕ
  pub message_count : ℕ

-- The values of the default member initialisers.
abbrev pub default_header : PacketHeader
default_header = record {
  major = protocol_major;
  minor = protocol_minor;
  flags = 0;
  message_type = 0;
  message_count = 0;
}

-- `struct PacketView`. The slice is the list of its bytes.
pub record PacketView : Type 0 where
  pub header : PacketHeader
  pub payload : Bytes

-- `struct TypedPacket`, for the storage `std::vector`.
pub record TypedPacket (t : MessageType) : Type 0 where
  pub header : PacketHeader
  pub messages : List t.Msg

-- The constructor sets the message type.
abbrev pub new_packet : (t : MessageType) → TypedPacket t
new_packet t = record { header = record default_header { message_type = t.type_id }; messages = [] }

-- `enum class PacketError`; `TooManyCommands` is an alias of `TooManyMessages`.
pub data PacketError : Type 0 where
  no_error too_small unsupported_version too_many_messages truncated invalid_float : PacketError
  checksum_mismatch unknown_message_type handshake_required schema_mismatch : PacketError

-- `struct DecodeViewResult`
pub record DecodeViewResult : Type 0 where
  pub view : Option PacketView
  pub error : PacketError
  pub bytes_consumed : ℕ

-- `kHeaderSizeV3 + count * wireSize`, and with the checksum.
abbrev pub payload_end : ℕ → ℕ → ℕ
payload_end count wire_size = u64 (header_size + u64 (count * wire_size))

abbrev pub packet_size : ℕ → ℕ → ℕ
packet_size count wire_size = u64 (payload_end count wire_size + checksum_size)
