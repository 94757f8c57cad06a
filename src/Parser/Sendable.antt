-- ===== src/Parser/Sendable.antt =====
-- Packets as they stand in a stream, and what a stream may end in.
use bcnp.Base.{ℕ, ◌*◌, ◌<◌, ◌≡◌, ◌⊎◌, List, [], ◌∷◌, ◌++◌, All, length}
use bcnp.Base.Words.{IsByte, IsU32}
use bcnp.Wire.{Bytes}
use bcnp.Packet.Types.{PacketView}
use bcnp.Packet.Frame.{InRange, frame}
use bcnp.Packet.Accept.{IsSupported}
use bcnp.Parser.{Event, packet}

-- The packets as they stand in a stream.
abbrev pub frames : List PacketView → Bytes
frames [] = []
frames (v ∷ vs) = frame v.header v.payload ++ frames vs

abbrev pub packets : List PacketView → List Event
packets [] = []
packets (v ∷ vs) = packet v ∷ packets vs

-- A packet that a parser takes which gives these sizes to the message types.
pub record IsSendable (wire_size : ℕ → ℕ) (v : PacketView) : Type 0 where
  pub range : InRange v.header
  pub version : IsSupported v.header
  pub bytes : All IsByte v.payload
  pub size_pos : 0 < wire_size v.header.message_type
  pub size_fits : IsU32 (wire_size v.header.message_type)
  pub payload_length : length v.payload ≡ v.header.message_count * wire_size v.header.message_type

-- The beginning of a packet of which at least a byte is missing.
pub record Begun (wire_size : ℕ → ℕ) (bytes : Bytes) : Type 0 where
  pub view : PacketView
  pub missing : Bytes
  pub sendable : IsSendable wire_size view
  pub missing_pos : 0 < length missing
  pub whole : bytes ++ missing ≡ frame view.header view.payload

-- No more than a part of a packet.
abbrev pub IsPartial : (ℕ → ℕ) → Bytes → Type 0
IsPartial wire_size bytes = (length bytes < 7) ⊎ Begun wire_size bytes
