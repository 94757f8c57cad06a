-- ===== src/Message/Registry.antt =====
-- The registry of message types, and the lookup in it.
use bcnp.Base.{ℕ, Option, none, some, List, [], ◌∷◌, ◌==◌, if◌then◌else◌}
use bcnp.Base.Words.{u16}

-- `struct MessageInfo`, less the name, which nothing reads.
pub record MessageInfo : Type 0 where
  pub type_id : ℕ
  pub wire_size : ℕ

-- `kMessageRegistry` of generated/bcnp/message_types.h: the schema declares no message.
abbrev pub message_registry : List MessageInfo
message_registry = []

-- `GetMessageInfo(MessageTypeId)`, over any registry that the generator writes.
unfoldable pub get_message_info : List MessageInfo → ℕ → Option MessageInfo
get_message_info [] type_id = none
get_message_info (info ∷ infos) type_id =
    let rest = get_message_info infos type_id in if info.type_id == type_id then some info else rest

-- `GetMessageInfo(uint16_t)`
unfoldable pub get_message_info_u16 : List MessageInfo → ℕ → Option MessageInfo
get_message_info_u16 registry type_id = get_message_info registry (u16 type_id)

-- `info ? info->wireSize : 0`
abbrev pub wire_size_of : Option MessageInfo → ℕ
wire_size_of none = 0
wire_size_of (some info) = info.wire_size
