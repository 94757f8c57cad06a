-- ===== src/Telemetry/Flushing.antt =====
-- A flush sends what was recorded, in one packet.
use bcnp.Base.{
  ℕ, zero, suc, ◌+◌, ◌%◌, ◌^◌, ◌==◌, ◌<◌, ◌≡◌, refl, sym, ap, ap₂, ◌∙◌, arith, Bool, true, false,
  none, some, List, [], ◌∷◌, length, get_or, drop, drop-all, ltb, lt→ltb, le→ltb,
}
use bcnp.Base.Words.{u64}
use bcnp.Wire.{Bytes}
use bcnp.Message.{MessageType}
use bcnp.Packet.Types.{TypedPacket, new_packet}
use bcnp.Packet.Decode.{decode_typed_packet}
use bcnp.Packet.Encode.{encode_typed_packet_vector}
use bcnp.Packet.Frame.{frame}
use bcnp.Packet.Layout.{wire_header}
use bcnp.Packet.Vector.{encode_typed_packet_vector-frame}
use bcnp.Parser.Sendable.{IsSendable}
use bcnp.Transport.{DuplexAdapter}
use bcnp.Driver.Send.{IsEncodable, view_of, view_of_lem}
use bcnp.Storage.{Storage, IsStorage}
use bcnp.Telemetry.{
  Metrics, TelemetryAccumulator, messages_from, sent, send_buffer, force_flush, maybe_flush,
}

module _ (t : MessageType) (s : Storage t.Msg) (blank : t.Msg) (capacity : ℕ)
    (law : IsStorage s blank capacity) where
  drop_next :
      (xs : List t.Msg) (i : ℕ) → i < length xs → get_or xs i blank ∷ drop (suc i) xs ≡ drop i xs
  drop_next [] i h = absurd (omega arith)
  drop_next (x ∷ xs) zero h = refl
  drop_next (x ∷ xs) (suc i) h = drop_next xs i (omega arith)

  messages_from_lem :
      (n i : ℕ) (v : s.V)
      → i + n ≡ length (law.items v)
      → messages_from t s n i v ≡ drop i (law.items v)
  messages_from_lem zero i v e = sym (drop-all i (law.items v) (omega arith))
  messages_from_lem (suc n) i v e =
      let next : i + 1 ≡ suc i = omega arith in
      ap₂ (λ x l. x ∷ l) (law.get_is v i (omega arith))
        (ap (λ j. messages_from t s n j v) next ∙ messages_from_lem n (suc i) v (omega arith))
      ∙ drop_next (law.items v) i (omega arith)

  -- The packet of the messages.
  abbrev pub packet_of : List t.Msg → TypedPacket t
  packet_of msgs = record (new_packet t) { messages = msgs }

  module _ {κ} {A : Type κ} (adapter : DuplexAdapter A) where
    send_buffer_lem :
        (a : TelemetryAccumulator t s) (wire : A) (v : s.V) (payload : Bytes)
        → IsEncodable t (packet_of (law.items v)) payload
        → send_buffer t s adapter a wire v (s.size v)
          ≡ sent t s adapter
              (s.size v)
              a
              (adapter.send_bytes (frame (wire_header t (packet_of (law.items v))) payload) wire)
    unfolding send_buffer
    send_buffer_lem a wire v payload e =
        let msgs : messages_from t s (s.size v) 0 v ≡ law.items v =
          messages_from_lem (s.size v) 0 v (omega (arith, law.size_is v)) in
        ap
          (λ r. elim r [
            | none ↦ (
              false,
              record a {
                metrics = record a.metrics { send_failures = u64 (a.metrics.send_failures + 1) };
              },
              wire,
            )
            | some bytes ↦ sent t s adapter (s.size v) a (adapter.send_bytes bytes wire)
          ])
          (ap (λ ms. encode_typed_packet_vector t (packet_of ms) []) msgs
            ∙ encode_typed_packet_vector-frame t (packet_of (law.items v)) payload [] e.codec
                e.encodes e.few)

    -- The counters behind a flush: what is sent counts as a packet and as its messages, and what the
    -- adapter refuses as a failure.
    abbrev pub counted : ℕ → Bool → Metrics → Metrics
    counted count true m = record m {
      messages_sent = (m.messages_sent + count) % 2 ^ 64;
      packets_sent = (m.packets_sent + 1) % 2 ^ 64;
    }
    counted count false m = record m { send_failures = (m.send_failures + 1) % 2 ^ 64 }

    sent_lem :
        (count : ℕ) (a : TelemetryAccumulator t s) (r : Bool × A)
        → sent t s adapter count a r
          ≡ (r.0, record a { metrics = counted count r.0 a.metrics }, r.1)
    sent_lem count a (true, wire) = refl
    sent_lem count a (false, wire) = refl

    -- A flush of messages that encode hands the adapter one packet, which a receiver takes that knows
    -- the type, and that the typed decoder turns back into the messages in the order in which they
    -- were recorded. It answers what the adapter answers, leaves the accumulator empty, and counts the
    -- messages and one packet as sent if the adapter takes them, and one failure if it does not.
    pub force_flush_sends :
        (a : TelemetryAccumulator t s) (wire : A) (payload : Bytes) (wire_size : ℕ → ℕ)
        → IsEncodable t (packet_of (law.items a.buffer)) payload
        → 0 < length (law.items a.buffer)
        → wire_size t.type_id ≡ t.wire_size
        → let v = view_of t (packet_of (law.items a.buffer)) payload in
          (force_flush t s adapter a wire ≡ (
            (adapter.send_bytes (frame v.header v.payload) wire).0,
            record a {
              tick_count = 0;
              buffer = s.fresh;
              metrics =
                  counted
                    (length (law.items a.buffer))
                    (adapter.send_bytes (frame v.header v.payload) wire).0
                    a.metrics;
            },
            (adapter.send_bytes (frame v.header v.payload) wire).1,
          ))
          × IsSendable wire_size v
          × (decode_typed_packet t v
              ≡ some (record {
                header = wire_header t (packet_of (law.items a.buffer));
                messages = law.items a.buffer;
              }))
    unfolding force_flush
    force_flush_sends a wire payload wire_size e some_items known =
        let (sendable, decoded) =
          view_of_lem t (packet_of (law.items a.buffer)) payload wire_size e known in
        let there : s.empty a.buffer ≡ false =
          law.empty_is a.buffer ∙ nonempty (length (law.items a.buffer)) some_items in
        (
          rw there (
              send_buffer_lem (record a { tick_count = 0; buffer = s.fresh }) wire a.buffer payload
                e
              ∙ ap
                  (λ n.
                    sent t s adapter n (record a { tick_count = 0; buffer = s.fresh })
                      (adapter.send_bytes
                        (frame (wire_header t (packet_of (law.items a.buffer))) payload) wire))
                  (law.size_is a.buffer)
              ∙ sent_lem (length (law.items a.buffer))
                  (record a { tick_count = 0; buffer = s.fresh })
                  (adapter.send_bytes
                    (frame (wire_header t (packet_of (law.items a.buffer))) payload) wire)),
          sendable,
          decoded,
        )
      where
        nonempty : (n : ℕ) → 0 < n → (n == 0) ≡ false
        nonempty n h = ground arith

    -- The calls of one interval but the last.
    abbrev pub flushes : ℕ → TelemetryAccumulator t s → A → TelemetryAccumulator t s × A
    flushes zero a wire = (a, wire)
    flushes (suc n) a wire =
        let (answer, b, next) = maybe_flush t s adapter a wire in flushes n b next

    early_call :
        (a : TelemetryAccumulator t s) (wire : A)
        → a.tick_count + 1 < a.config.flush_interval_ticks
        → a.config.flush_interval_ticks < 2 ^ 64
        → maybe_flush t s adapter a wire ≡ (false, record a { tick_count = a.tick_count + 1 }, wire)
    unfolding maybe_flush
    early_call a wire early small =
        let ticks : (a.tick_count + 1) % 2 ^ 64 ≡ a.tick_count + 1 = omega arith in
        let waits : ltb (u64 (a.tick_count + 1)) a.config.flush_interval_ticks ≡ true =
          lt→ltb (u64 (a.tick_count + 1)) a.config.flush_interval_ticks (omega (arith, ticks)) in
        rw waits (ap (λ k. (false, record a { tick_count = k }, wire)) ticks)

    quiet :
        (n : ℕ) (a : TelemetryAccumulator t s) (wire : A)
        → a.tick_count + n < a.config.flush_interval_ticks
        → a.config.flush_interval_ticks < 2 ^ 64
        → flushes n a wire ≡ (record a { tick_count = a.tick_count + n }, wire)
    quiet zero a wire early small =
        ap (λ k. (record a { tick_count = k }, wire)) (plus_zero a.tick_count)
      where
        plus_zero : (k : ℕ) → k ≡ k + 0
        plus_zero k = omega arith
    quiet (suc n) a wire early small =
        let sum : a.tick_count + 1 + n ≡ a.tick_count + suc n = omega arith in
        ap (λ r. flushes n r.1 r.2) (early_call a wire (omega arith) small)
        ∙ quiet n (record a { tick_count = a.tick_count + 1 }) wire (omega arith) small
        ∙ ap (λ k. (record a { tick_count = k }, wire)) sum

    -- An accumulator that has just been flushed does nothing but count in the calls of an interval but
    -- the last, and the last call is a flush.
    pub maybe_flush_interval :
        (n : ℕ) (a : TelemetryAccumulator t s) (wire : A)
        → a.tick_count ≡ 0
        → a.config.flush_interval_ticks ≡ suc n
        → suc n < 2 ^ 64
        → (flushes n a wire ≡ (record a { tick_count = n }, wire))
          × (maybe_flush t s adapter (record a { tick_count = n }) wire
              ≡ force_flush t s adapter a wire)
    unfolding maybe_flush force_flush
    maybe_flush_interval n a wire start interval small =
        let late : ltb (u64 (n + 1)) a.config.flush_interval_ticks ≡ false =
          le→ltb (u64 (n + 1)) a.config.flush_interval_ticks (omega arith) in
        let same : a.tick_count + n ≡ n = omega arith in
        (
          quiet n a wire (omega arith) (omega arith)
              ∙ ap (λ k. (record a { tick_count = k }, wire)) same,
          rw late refl,
        )
