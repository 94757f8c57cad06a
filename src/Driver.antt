-- ===== src/Driver.antt =====
-- `DispatcherDriver` of transport/controller_driver.h and controller_driver.cpp.
pub mod Poll
pub mod Send
use bcnp.Base.{
  ℕ, zero, suc, ◌==◌, Bool, true, false, Option, none, some, List, [], length, if◌then◌else◌,
}
use bcnp.Wire.{Bytes}
use bcnp.Message.{MessageInfo, MessageType}
use bcnp.Queue.{Time}
use bcnp.Packet.Types.{TypedPacket}
use bcnp.Packet.Encode.{encode_typed_packet_vector}
use bcnp.Dispatcher.{PacketDispatcher, push_bytes}
use bcnp.Transport.{DuplexAdapter}

abbrev pub max_chunks_per_poll : ℕ
max_chunks_per_poll = 10

abbrev pub rx_scratch_size : ℕ
rx_scratch_size = 8192

-- The dispatcher and the adapter that the driver refers to.
pub record DispatcherDriver {ℓ κ} (S : Type ℓ) (A : Type κ) : Type (ℓ ⊔ κ) where
  pub dispatcher : PacketDispatcher S
  pub adapter : A

module _ {ℓ κ} {S : Type ℓ} {A : Type κ} (adapter : DuplexAdapter A) where
  module _ (registry : List MessageInfo) (clock : ℕ → Time) where
    -- The loop of `PollOnce`.
    abbrev pub poll_loop : ℕ → DispatcherDriver S A → Option (DispatcherDriver S A)
    poll_loop zero driver = some driver
    poll_loop (suc rounds) driver =
        let (chunk, a) = adapter.receive_chunk rx_scratch_size driver.adapter in
        if length chunk == 0
        then some (record driver { adapter = a })
        else elim (push_bytes registry clock driver.dispatcher (some chunk)) [
          | none ↦ none
          | some d ↦ poll_loop rounds (record { dispatcher = d; adapter = a })
        ]

    unfoldable pub poll_once : DispatcherDriver S A → Option (DispatcherDriver S A)
    poll_once driver = poll_loop max_chunks_per_poll driver

  unfoldable pub send_bytes : DispatcherDriver S A → Bytes → Bool × DispatcherDriver S A
  send_bytes driver data_ =
      let (sent, a) = adapter.send_bytes data_ driver.adapter in
      (sent, record driver { adapter = a })

  unfoldable pub send_packet :
      (t : MessageType) → DispatcherDriver S A → TypedPacket t → Bool × DispatcherDriver S A
  send_packet t driver p = elim (encode_typed_packet_vector t p []) [
    | none ↦ (false, driver)
    | some buffer ↦
        let (sent, a) = adapter.send_bytes buffer driver.adapter in
        (sent, record driver { adapter = a })
  ]
