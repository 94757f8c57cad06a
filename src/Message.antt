-- ===== src/Message.antt =====
-- Messages: the interface that a generated message struct offers (kTypeId, kWireSize, Encode,
-- Decode), the registry of generated/bcnp/message_types.h, and the structs of
-- tests/generated/bcnp/message_types.h.
pub mod Codec
pub mod Structs
pub mod Laws
mod Registry
pub use Codec.{MessageType, IsCodec}
pub use Registry.{MessageInfo}
unfoldable pub use Registry.{get_message_info, get_message_info_u16, message_registry, wire_size_of}
