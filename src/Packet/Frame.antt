-- ===== src/Packet/Frame.antt =====
-- The wire format of protocol.md: seven bytes of header, the messages, and their checksum.
use bcnp.Base.{
  ℕ, ◌+◌, ◌*◌, ◌^◌, ◌≤◌, ◌<◌, ◌≡◌, refl, arith, Option, some, List, [], ◌∷◌, ◌++◌, length,
  length-append, All, All-append, ◌>>=◌,
}
use bcnp.Base.Words.{IsByte, IsU16, IsU32}
use bcnp.Wire.{Bytes, load_u16, u16_bytes, u32_bytes}
use bcnp.Wire.RoundTrip.{u16_bytes-All-IsByte, load_u16-u16_bytes}
use bcnp.Crc.{compute_crc32}
use bcnp.Message.{MessageType}
use bcnp.Packet.Types.{PacketHeader, payload_end, packet_size}
use bcnp.Packet.Decode.{parse_header}
use native.Mathlib.Nat.{mul-le-mul}

-- Every field holds a value of its C++ type.
pub record InRange (h : PacketHeader) : Type 0 where
  pub major_byte : IsByte h.major
  pub minor_byte : IsByte h.minor
  pub flags_byte : IsByte h.flags
  pub type_u16 : IsU16 h.message_type
  pub count_u16 : IsU16 h.message_count

unfoldable pub header_bytes : PacketHeader → Bytes
header_bytes h =
    h.major ∷ h.minor ∷ h.flags ∷ (u16_bytes h.message_type ++ u16_bytes h.message_count)

-- Header and payload: what the checksum covers.
abbrev pub body : PacketHeader → Bytes → Bytes
body h payload = header_bytes h ++ payload

unfoldable pub frame : PacketHeader → Bytes → Bytes
frame h payload = body h payload ++ u32_bytes (compute_crc32 (body h payload))

-- The messages one behind the other.
unfoldable pub payload_of : (t : MessageType) → List t.Msg → Option Bytes
payload_of t [] = some []
payload_of t (m ∷ ms) = do bs ← t.encode m; rest ← payload_of t ms; some (bs ++ rest)

pub length-header_bytes : (h : PacketHeader) → length (header_bytes h) ≡ 7
unfolding header_bytes u16_bytes
length-header_bytes h = refl

pub length-body :
    (h : PacketHeader) (payload : Bytes) → length (body h payload) ≡ 7 + length payload
length-body h payload = omega (arith, length-append (header_bytes h) payload, length-header_bytes h)

pub length-frame :
    (h : PacketHeader) (payload : Bytes) → length (frame h payload) ≡ 11 + length payload
unfolding frame u32_bytes
length-frame h payload = omega (
  arith,
  length-append (body h payload) (u32_bytes (compute_crc32 (body h payload))),
  length-body h payload,
)

pub header_bytes-All-IsByte : (h : PacketHeader) → InRange h → All IsByte (header_bytes h)
unfolding header_bytes
header_bytes-All-IsByte h r = (
  r.major_byte,
  (
    r.minor_byte,
    (
      r.flags_byte,
      All-append IsByte (u16_bytes h.message_type) (u16_bytes h.message_count)
          (u16_bytes-All-IsByte h.message_type) (u16_bytes-All-IsByte h.message_count),
    ),
  ),
)

pub body-All-IsByte :
    (h : PacketHeader) (payload : Bytes)
    → InRange h
    → All IsByte payload
    → All IsByte (body h payload)
body-All-IsByte h payload r p =
    All-append IsByte (header_bytes h) payload (header_bytes-All-IsByte h r) p

-- Reading the header back.
pub parse_header-header_bytes :
    (h : PacketHeader) (rest : Bytes) → InRange h → parse_header (header_bytes h ++ rest) ≡ h
unfolding parse_header header_bytes u16_bytes load_u16
parse_header-header_bytes h rest r = λ i. record {
  major = h.major;
  minor = h.minor;
  flags = h.flags;
  message_type = load_u16-u16_bytes h.message_type (u16_bytes h.message_count ++ rest) r.type_u16 i;
  message_count = load_u16-u16_bytes h.message_count rest r.count_u16 i;
}

-- No size computation of a packet wraps.
pub sizes_fit :
    (count wire_size : ℕ)
    → IsU16 count
    → IsU32 wire_size
    → (count * wire_size < 2 ^ 48)
      × (payload_end count wire_size ≡ 7 + count * wire_size)
      × (packet_size count wire_size ≡ 11 + count * wire_size)
sizes_fit count wire_size hc hw =
    (omega (arith, product), omega (arith, product), omega (arith, product))
  where
    product : count * wire_size ≤ 65535 * 4294967295
    product =
        mul-le-mul {n₁ = count} {m₁ = wire_size} {n₂ = 65535} {m₂ = 4294967295} (omega arith)
          (omega arith)
