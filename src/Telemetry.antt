-- ===== src/Telemetry.antt =====
-- `TelemetryAccumulator` of telemetry_accumulator.h, over a storage. Each method holds the mutex while
-- it changes the state, and `SendBuffer` works on a buffer that it has taken out. `m_wireBuffer` is
-- cleared before each use, and is local here. A call that throws is `none`.
pub mod Dropping
pub mod Recording
pub mod Flushing
use bcnp.Base.{
  ℕ, zero, suc, ◌+◌, ◌-◌, ◌==◌, Bool, true, false, Option, none, some, ◌>>=◌, List, [], ◌∷◌, ltb,
  leb, if◌then◌else◌,
}
use bcnp.Base.Words.{u64}
use bcnp.Wire.{Bytes}
use bcnp.Message.{MessageType}
use bcnp.Packet.Types.{TypedPacket, new_packet}
use bcnp.Packet.Encode.{encode_typed_packet_vector}
use bcnp.Transport.{DuplexAdapter}
use bcnp.Storage.{Storage}

pub record TelemetryAccumulatorConfig : Type 0 where
  pub flush_interval_ticks : ℕ
  pub max_buffered_messages : ℕ

abbrev pub default_config : TelemetryAccumulatorConfig
default_config = record { flush_interval_ticks = 2; max_buffered_messages = 64 }

pub record Metrics : Type 0 where
  pub messages_recorded : ℕ
  pub messages_sent : ℕ
  pub packets_sent : ℕ
  pub buffer_overflows : ℕ
  pub send_failures : ℕ

abbrev pub no_metrics : Metrics
no_metrics = record {
  messages_recorded = 0;
  messages_sent = 0;
  packets_sent = 0;
  buffer_overflows = 0;
  send_failures = 0;
}

module _ (t : MessageType) (s : Storage t.Msg) where
  pub record TelemetryAccumulator : Type 0 where
    pub config : TelemetryAccumulatorConfig
    pub buffer : s.V
    pub tick_count : ℕ
    pub metrics : Metrics

  abbrev pub new_accumulator : TelemetryAccumulatorConfig → TelemetryAccumulator
  new_accumulator config = record {
    config = config;
    buffer = s.fresh;
    tick_count = 0;
    metrics = no_metrics;
  }

  -- The loop that moves the elements to the left, of which `n` are left, from `i` on.
  unfoldable pub shift_loop : ℕ → ℕ → s.V → s.V
  shift_loop zero i buffer = buffer
  shift_loop (suc n) i buffer = shift_loop n (i + 1) (s.put buffer (i - 1) (s.get buffer i))

  unfoldable pub drop_oldest : s.V → s.V
  drop_oldest buffer =
      if s.empty buffer then buffer else s.pop_back (shift_loop (s.size buffer - 1) 1 buffer)

  -- Room for one more message, and the count of an overflow.
  unfoldable pub make_room : TelemetryAccumulator → TelemetryAccumulator
  make_room a =
      if leb a.config.max_buffered_messages (s.size a.buffer)
      then record a {
        buffer = drop_oldest a.buffer;
        metrics = record a.metrics { buffer_overflows = u64 (a.metrics.buffer_overflows + 1) };
      }
      else a

  unfoldable pub record_message :
      TelemetryAccumulator → t.Msg → Option (Bool × TelemetryAccumulator)
  record_message a msg =
      let room = make_room a in
      elim (s.push_back room.buffer msg) [
        | none ↦ none
        | some buffer ↦ some (
          true,
          record room {
            buffer = buffer;
            metrics = record room.metrics {
              messages_recorded = u64 (room.metrics.messages_recorded + 1);
            };
          },
        )
      ]

  unfoldable pub record_batch : TelemetryAccumulator → List t.Msg → Option TelemetryAccumulator
  record_batch a [] = some a
  record_batch a (msg ∷ msgs) = record_message a msg >>= λ r. record_batch r.1 msgs

  -- The messages in the order of the iterators, of which `n` are left, from `i` on.
  abbrev pub messages_from : ℕ → ℕ → s.V → List t.Msg
  messages_from zero i buffer = []
  messages_from (suc n) i buffer = s.get buffer i ∷ messages_from n (i + 1) buffer

  module _ {κ} {A : Type κ} (adapter : DuplexAdapter A) where
    abbrev pub sent : ℕ → TelemetryAccumulator → Bool × A → Bool × TelemetryAccumulator × A
    sent count a (true, wire) = (
      true,
      record a {
        metrics = record a.metrics {
          messages_sent = u64 (a.metrics.messages_sent + count);
          packets_sent = u64 (a.metrics.packets_sent + 1);
        };
      },
      wire,
    )
    sent count a (false, wire) = (
      false,
      record a { metrics = record a.metrics { send_failures = u64 (a.metrics.send_failures + 1) } },
      wire,
    )

    unfoldable pub send_buffer :
        TelemetryAccumulator → A → s.V → ℕ → Bool × TelemetryAccumulator × A
    send_buffer a wire buffer count =
        let packet : TypedPacket t = record (new_packet t) {
          messages = messages_from (s.size buffer) 0 buffer;
        } in
        elim (encode_typed_packet_vector t packet []) [
          | none ↦ (
            false,
            record a {
              metrics = record a.metrics { send_failures = u64 (a.metrics.send_failures + 1) };
            },
            wire,
          )
          | some bytes ↦ sent count a (adapter.send_bytes bytes wire)
        ]

    unfoldable pub force_flush : TelemetryAccumulator → A → Bool × TelemetryAccumulator × A
    force_flush a wire =
        let reset = record a { tick_count = 0 } in
        if s.empty a.buffer
        then (false, reset, wire)
        else send_buffer (record reset { buffer = s.fresh }) wire a.buffer (s.size a.buffer)

    unfoldable pub maybe_flush : TelemetryAccumulator → A → Bool × TelemetryAccumulator × A
    maybe_flush a wire =
        let ticks = u64 (a.tick_count + 1) in
        let reset = record a { tick_count = 0 } in
        if ltb ticks a.config.flush_interval_ticks
        then (false, record a { tick_count = ticks }, wire)
        else if s.empty a.buffer
        then (false, reset, wire)
        else send_buffer (record reset { buffer = s.fresh }) wire a.buffer (s.size a.buffer)

  abbrev pub buffered_count : TelemetryAccumulator → ℕ
  buffered_count a = s.size a.buffer

  unfoldable pub clear : TelemetryAccumulator → TelemetryAccumulator
  clear a = record a { buffer = s.clear a.buffer; tick_count = 0 }

  unfoldable pub reset_metrics : TelemetryAccumulator → TelemetryAccumulator
  reset_metrics a = record a { metrics = no_metrics }

  unfoldable pub set_config :
      TelemetryAccumulator → TelemetryAccumulatorConfig → TelemetryAccumulator
  set_config a config = record a { config = config }
