-- ===== src/Spi.antt =====
-- `SpiStreamAdapter` of spi_adapter.h and spi_adapter.cpp. The bus is a state of a type `A`, which the
-- two callbacks change.
pub mod Poll
use bcnp.Base.{
  ℕ, zero, suc, ◌==◌, Bool, true, false, Option, none, some, List, [], length, if◌then◌else◌,
}
use bcnp.Wire.{Bytes}
use bcnp.Message.{MessageInfo, MessageType}
use bcnp.Packet.Types.{TypedPacket}
use bcnp.Packet.Encode.{encode_typed_packet_vector}
use bcnp.Parser.{StreamParser}
use bcnp.Parser.Loop.{push}

-- The size of the buffer of `Poll`.
abbrev pub chunk_size : ℕ
chunk_size = 256

-- `receive` may be an empty callback.
pub record SpiStreamAdapter {ℓ} (A : Type ℓ) : Type ℓ where
  pub receive : Option (ℕ → A → Bytes × A)
  pub send : Bytes → A → Bool × A
  pub bus : A
  pub parser : StreamParser

module _ {ℓ} {A : Type ℓ} where
  unfoldable pub push_chunk :
      List MessageInfo → SpiStreamAdapter A → Bytes → Option (SpiStreamAdapter A)
  push_chunk registry s data_ = elim (push registry s.parser (some data_)) [
    | none ↦ none
    | some p ↦ some (record s { parser = p })
  ]

  -- The loop of `Poll`; `none` means that the rounds ran out.
  abbrev pub poll_loop :
      List MessageInfo → (ℕ → A → Bytes × A) → ℕ → SpiStreamAdapter A → Option (SpiStreamAdapter A)
  poll_loop registry receive zero s = none
  poll_loop registry receive (suc rounds) s =
      let (chunk, bus) = receive chunk_size s.bus in
      if length chunk == 0
      then some (record s { bus = bus })
      else elim (push_chunk registry (record s { bus = bus }) chunk) [
        | none ↦ none
        | some next ↦ poll_loop registry receive rounds next
      ]

  unfoldable pub poll : List MessageInfo → ℕ → SpiStreamAdapter A → Option (SpiStreamAdapter A)
  poll registry rounds s = elim s.receive [
    | none ↦ some s
    | some receive ↦ poll_loop registry receive rounds s
  ]

  unfoldable pub send_packet :
      (t : MessageType) → SpiStreamAdapter A → TypedPacket t → Bool × SpiStreamAdapter A
  send_packet t s p = elim (encode_typed_packet_vector t p []) [
    | none ↦ (false, s)
    | some buffer ↦ let (sent, bus) = s.send buffer s.bus in (sent, record s { bus = bus })
  ]
