-- ===== src/Driver/Send.antt =====
-- What a sent packet is to the peer that receives it.
use bcnp.Base.{ℕ, ◌*◌, ◌≤◌, ◌≡◌, refl, sym, ap, ◌∙◌, arith, false, none, some, [], All, length}
use bcnp.Base.Words.{IsByte}
use bcnp.Wire.{Bytes}
use bcnp.Message.{MessageType, IsCodec}
use bcnp.Packet.Types.{PacketView, TypedPacket}
use bcnp.Packet.Decode.{decode_typed_packet}
use bcnp.Packet.Frame.{frame, payload_of}
use bcnp.Packet.Layout.{wire_header, length-payload_of, payload_of-All-IsByte}
use bcnp.Packet.Accept.{IsSupported}
use bcnp.Packet.RoundTrip.{decode_typed_packet-payload_of}
use bcnp.Packet.Vector.{encode_typed_packet_vector-frame}
use bcnp.Parser.Sendable.{IsSendable}
use bcnp.Transport.{DuplexAdapter}
use bcnp.Driver.{DispatcherDriver, send_bytes, send_packet}

-- A typed packet that can be sent, and its payload.
pub record IsEncodable (t : MessageType) (p : TypedPacket t) (payload : Bytes) : Type 0 where
  pub codec : IsCodec t
  pub version : IsSupported p.header
  pub flags_byte : IsByte p.header.flags
  pub in_range : All t.InRange p.messages
  pub encodes : payload_of t p.messages ≡ some payload
  pub few : length p.messages ≤ 65535

abbrev pub view_of : (t : MessageType) → TypedPacket t → Bytes → PacketView
view_of t p payload = record { header = wire_header t p; payload = payload }

-- A receiver that knows the type takes it, and decodes the messages.
pub view_of_lem :
    (t : MessageType) (p : TypedPacket t) (payload : Bytes) (wire_size : ℕ → ℕ)
    → IsEncodable t p payload
    → wire_size t.type_id ≡ t.wire_size
    → IsSendable wire_size (view_of t p payload)
      × (decode_typed_packet t (view_of t p payload)
          ≡ some (record { header = wire_header t p; messages = p.messages }))
view_of_lem t p payload wire_size e known = (
  record {
    range = record {
      major_byte = omega (arith, e.version.0);
      minor_byte = omega (arith, e.version.1);
      flags_byte = e.flags_byte;
      type_u16 = e.codec.type_id_fits;
      count_u16 = omega (arith, e.few);
    };
    version = e.version;
    bytes = payload_of-All-IsByte t e.codec p.messages payload e.encodes;
    size_pos = omega (arith, known, e.codec.wire_size_pos);
    size_fits = omega (arith, known, e.codec.wire_size_fits);
    payload_length =
        length-payload_of t e.codec p.messages payload e.encodes
        ∙ ap (λ n. length p.messages * n) (sym known);
  },
  decode_typed_packet-payload_of t e.codec p.messages (wire_header t p) payload e.in_range e.encodes
      refl refl,
)

-- `SendPacket` of a packet that encodes hands the adapter exactly the frame of a packet that a receiver
-- takes which knows the type, and that the typed decoder turns back into the messages; what it returns
-- is what the adapter does.
pub send_packet_sends {ℓ κ} :
    {S : Type ℓ} {A : Type κ} (adapter : DuplexAdapter A) (t : MessageType)
    (d : DispatcherDriver S A) (p : TypedPacket t) (payload : Bytes) (wire_size : ℕ → ℕ)
    → IsEncodable t p payload
    → wire_size t.type_id ≡ t.wire_size
    → let v = view_of t p payload in
      (send_packet adapter t d p ≡ send_bytes adapter d (frame v.header v.payload))
      × IsSendable wire_size v
      × (decode_typed_packet t v
          ≡ some (record { header = wire_header t p; messages = p.messages }))
unfolding send_packet send_bytes
send_packet_sends adapter t d p payload wire_size e known =
    let (sendable, decoded) = view_of_lem t p payload wire_size e known in
    (
      ap (λ r. elim r [ none ↦ (false, d) | some buffer ↦ send_bytes adapter d buffer ])
          (encode_typed_packet_vector-frame t p payload [] e.codec e.encodes e.few),
      sendable,
      decoded,
    )
