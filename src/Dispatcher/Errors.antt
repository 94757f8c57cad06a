-- ===== src/Dispatcher/Errors.antt =====
-- What a push does to the counters, whatever the bytes are.
use bcnp.Base.{ℕ, suc, ◌+◌, ◌%◌, ◌^◌, ◌<◌, ◌≡◌, refl, ap, ◌∙◌, arith, none, some, List, [], ◌∷◌}
use bcnp.Wire.{Bytes}
use bcnp.Message.{MessageInfo}
use bcnp.Queue.{Time}
use bcnp.Parser.{Event, packet, error, StreamParser}
use bcnp.Parser.Loop.{push}
use bcnp.Parser.Ring.{IsValid}
use bcnp.Parser.Total.{push_returns}
use bcnp.Dispatcher.{PacketDispatcher, handle_packet, handle_error, handle_events, push_bytes}
use bcnp.Dispatcher.Receive.{last_reading, last_reading-first, handle_events-parser}

abbrev pub error_count : List Event → ℕ
error_count [] = 0
error_count (packet v ∷ es) = error_count es
error_count (error e ∷ es) = suc (error_count es)

abbrev pub packet_count : List Event → ℕ
packet_count [] = 0
packet_count (packet v ∷ es) = suc (packet_count es)
packet_count (error e ∷ es) = packet_count es

module _ {ℓ} {S : Type ℓ} (clock : ℕ → Time) where
  -- The counters behind these callbacks.
  pub record Counted (d e : PacketDispatcher S) (es : List Event) : Type 0 where
    pub parse_errors : e.parse_errors ≡ (d.parse_errors + error_count es) % 2 ^ 64
    pub last_rx : e.last_rx ≡ last_reading clock d.clock_reads d.last_rx (packet_count es)

  handle_events-Counted :
      (es : List Event) (d : PacketDispatcher S)
      → d.parse_errors < 2 ^ 64
      → Counted d (handle_events clock d es) es
  unfolding handle_packet handle_error
  handle_events-Counted [] d small = record { parse_errors = omega arith; last_rx = refl }
  handle_events-Counted (packet v ∷ es) d small =
      let later = handle_events-Counted es (handle_packet clock d v) small in
      record {
        parse_errors = later.parse_errors;
        last_rx =
            later.last_rx ∙ last_reading-first clock (packet_count es) d.clock_reads d.last_rx;
      }
  handle_events-Counted (error e ∷ es) d small =
      let later = handle_events-Counted es (handle_error d e) (omega arith) in
      record { parse_errors = later.parse_errors ∙ omega arith; last_rx = later.last_rx }

  -- A push always returns, whatever the bytes are, and leaves a valid parser. The error count moves by
  -- the errors that the parser reported, and the last receive time is that of the last packet that it
  -- delivered, if there was one.
  pub push_bytes_returns :
      (registry : List MessageInfo) (d : PacketDispatcher S) (data_ : Bytes)
      → IsValid d.parser
      → d.parse_errors < 2 ^ 64
      → (q : StreamParser) × (e : PacketDispatcher S) × (push registry
            (record d.parser { events = [] })
            (some data_)
          ≡ some q)
        × (push_bytes registry clock d (some data_) ≡ some e)
        × Counted d e q.events
        × IsValid e.parser
  unfolding push_bytes
  push_bytes_returns registry d data_ v small =
      let (q, pushed, valid) =
        push_returns registry (record d.parser { events = [] }) (some data_)
          (record {
            roomy = v.roomy;
            scratch_length = v.scratch_length;
            head_in = v.head_in;
            size_le = v.size_le;
            offset_fits = v.offset_fits;
          }) in
      let e = handle_events clock (record d { parser = q }) q.events in
      let c = handle_events-Counted q.events (record d { parser = q }) small in
      (
        q,
        e,
        pushed,
        ap
            (λ r. elim r [
              | none ↦ none
              | some p ↦ some (handle_events clock (record d { parser = p }) p.events)
            ])
            pushed,
        record { parse_errors = c.parse_errors; last_rx = c.last_rx },
        rw (handle_events-parser clock (record d { parser = q }) q.events) valid,
      )
