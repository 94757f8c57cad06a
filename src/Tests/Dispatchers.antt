-- ===== src/Tests/Dispatchers.antt =====
-- A dispatcher whose handler keeps the views that it gets, and two adapters with scripted answers.
use bcnp.Base.{ℕ, ◌+◌, ◌≡◌, refl, arith, true, some, List, [], ◌∷◌, ◌++◌, take, drop}
use bcnp.Wire.{Bytes}
use bcnp.Queue.{Time}
use bcnp.Message.{message_registry}
use bcnp.Packet.Types.{PacketView}
use bcnp.Parser.{StreamParser, new_parser, set_wire_size_lookup, lookup_wire_size}
use bcnp.Parser.Loop.{push}
use bcnp.Parser.Ring.{IsValid, content}
use bcnp.Parser.Stream.{Streamed}
use bcnp.Parser.Chunks.{Receives, concat}
use bcnp.Dispatcher.{PacketDispatcher, new_dispatcher, register_handler, push_bytes}
use bcnp.Dispatcher.Receive.{Dispatched}
use bcnp.Dispatcher.Stream.{Step, push_all_bytes, push_all_bytes_dispatches}
use bcnp.Dispatcher.Errors.{Counted, push_bytes_returns}
use bcnp.Transport.{DuplexAdapter}
use bcnp.Driver.{DispatcherDriver, poll_once, send_packet, send_bytes}
use bcnp.Driver.Send.{view_of, send_packet_sends}
use bcnp.Parser.Sendable.{IsSendable}
use bcnp.Packet.Decode.{decode_typed_packet}
use bcnp.Packet.Layout.{wire_header}
use bcnp.Packet.Frame.{frame}
use bcnp.Message.Structs.{proximity_alert}
use bcnp.Message.Laws.{proximity_alert-IsCodec}
use bcnp.Driver.Poll.{poll_once_dispatches}
use bcnp.Spi.{SpiStreamAdapter, poll}
use bcnp.Spi.Poll.{Gives, poll_delivers}
use bcnp.Tests.Packets.{alert_packet, alert_payload, payload_of-alert, alert_bytes, alert_view}
use bcnp.Tests.Parsers.{parser, parser-IsValid, Receives-alert, alert_size}

abbrev keep : PacketView → List PacketView → List PacketView
keep v vs = vs ++ (v ∷ [])

abbrev ticks : ℕ → Time
ticks n = 1000 + n

abbrev dispatcher : PacketDispatcher (List PacketView)
dispatcher =
    let fresh : PacketDispatcher (List PacketView) =
      new_dispatcher (record { parser_buffer_size = 64; connection_timeout = 200 }) [] in
    record (register_handler fresh 12 keep) { parser = parser }

abbrev halves : List Bytes
halves = take 3 alert_bytes ∷ drop 3 alert_bytes ∷ []

Receives-halves :
    Receives message_registry
      (lookup_wire_size message_registry parser)
      15
      dispatcher.parser
      (alert_view ∷ [])
      (concat halves)
Receives-halves = Receives-alert

push_all_bytes_dispatches_example :
    (e : PacketDispatcher (List PacketView)) × (push_all_bytes message_registry ticks dispatcher
        halves
      ≡ some e)
    × Dispatched ticks dispatcher e (alert_view ∷ [])
    × (content e.parser ≡ [])
unfolding new_parser set_wire_size_lookup
push_all_bytes_dispatches_example =
    push_all_bytes_dispatches message_registry ticks (lookup_wire_size message_registry parser) 15
      halves dispatcher (alert_view ∷ []) Receives-halves (omega arith)
      (omega arith, (omega arith, tt))

push_bytes_returns_example :
    (q : StreamParser) × (e : PacketDispatcher (List PacketView)) × (push message_registry
        (record dispatcher.parser { events = [] })
        (some alert_bytes)
      ≡ some q)
    × (push_bytes message_registry ticks dispatcher (some alert_bytes) ≡ some e)
    × Counted ticks dispatcher e q.events
    × IsValid e.parser
unfolding new_dispatcher register_handler
push_bytes_returns_example =
    push_bytes_returns ticks message_registry dispatcher alert_bytes parser-IsValid (omega arith)

-- An adapter that has these chunks to give, and accepts whatever is sent.
abbrev pub scripted : DuplexAdapter (List Bytes)
scripted = record { send_bytes = λ data_ a. (true, a); receive_chunk = give }
  where
    give : ℕ → List Bytes → Bytes × List Bytes
    give n [] = ([], [])
    give n (c ∷ cs) = (take n c, cs)

abbrev driver : DispatcherDriver (List PacketView) (List Bytes)
driver = record { dispatcher = dispatcher; adapter = halves }

poll_once_dispatches_example :
    (e : PacketDispatcher (List PacketView)) × (poll_once scripted message_registry ticks driver
      ≡ some (record { dispatcher = e; adapter = [] }))
    × Step message_registry ticks
        (lookup_wire_size message_registry parser)
        15
        dispatcher
        e
        (alert_view ∷ [])
        []
unfolding new_parser set_wire_size_lookup
poll_once_dispatches_example =
    poll_once_dispatches scripted message_registry ticks (lookup_wire_size message_registry parser)
      15 driver [] (alert_view ∷ []) Receives-halves (omega arith) (omega arith, (omega arith, tt))

abbrev spi : SpiStreamAdapter (List Bytes)
spi = record {
  receive = some scripted.receive_chunk;
  send = scripted.send_bytes;
  bus = halves;
  parser = parser;
}

poll_delivers_example :
    (q : StreamParser) × (poll message_registry 3 spi ≡ some (record spi { bus = []; parser = q }))
    × Streamed parser q (alert_view ∷ []) []
unfolding new_parser set_wire_size_lookup
poll_delivers_example =
    poll_delivers message_registry scripted.receive_chunk (lookup_wire_size message_registry parser)
      15 3 spi halves [] (alert_view ∷ []) refl gives (omega arith) Receives-alert (omega arith)
      (omega arith, (omega arith, tt))
  where
    gives : Gives scripted.receive_chunk halves halves []
    gives = (drop 1 halves, refl, omega arith, ([], refl, omega arith, refl))

send_packet_sends_example :
    let v = view_of proximity_alert alert_packet alert_payload in
    (send_packet scripted proximity_alert driver alert_packet
      ≡ send_bytes scripted driver (frame v.header v.payload))
    × IsSendable (lookup_wire_size message_registry parser) v
    × (decode_typed_packet proximity_alert v
        ≡ some (record {
          header = wire_header proximity_alert alert_packet;
          messages = alert_packet.messages;
        }))
send_packet_sends_example =
    send_packet_sends scripted proximity_alert driver alert_packet alert_payload
      (lookup_wire_size message_registry parser)
      (record {
        codec = proximity_alert-IsCodec;
        version = (refl, refl);
        flags_byte = omega arith;
        in_range = omega arith;
        encodes = payload_of-alert;
        few = omega arith;
      })
      alert_size
