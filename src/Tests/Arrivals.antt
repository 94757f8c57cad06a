-- ===== src/Tests/Arrivals.antt =====
-- The packet of the server arrives at the client.
use bcnp.Base.{
  ◌+◌, ◌==◌, ◌≡◌, refl, sym, ap, ◌∙◌, arith, true, none, some, [], ◌∷◌, ◌++◌, append-nil, length,
  take, drop, All, ◌≤◌,
}
use bcnp.Wire.{load_u32, store_u32, u32_bytes}
use bcnp.Handshake.{schema_hash, encode_handshake, extract_schema_hash}
use bcnp.Handshake.Laws.{handshake_of}
use bcnp.Message.{message_registry}
use bcnp.Parser.{StreamParser, lookup_wire_size, new_parser, set_wire_size_lookup}
use bcnp.Parser.Sendable.{frames}
use bcnp.Parser.Stream.{Streamed}
use bcnp.Parser.Chunks.{Receives, push_all}
use bcnp.Tcp.Ring.{write_ring, enqueue_tx, advance_ring, send_piece}
use bcnp.Tcp.Ring.Content.{content}
use bcnp.Tcp.Connection.{
  close_socket, configure_socket, create_base_socket, try_connect, begin_client_connect, flush_loop,
  try_flush_tx_buffer, poll_client, poll_connection,
}
use bcnp.Tcp.Session.{
  open_client, new_adapter, is_handshake_complete, set_expected_schema_hash,
  get_expected_schema_hash, own_handshake, send_handshake, assemble, process_handshake, pass_up,
  hear, receive_loop, receive_chunk,
}
use bcnp.Tcp.Stream.{queued_bytes, IsAccounted, run-IsAccounted}
use bcnp.Tcp.Assembly.{heard_bytes}
use bcnp.Tcp.Peer.{expected_of, run-IsHeard}
use bcnp.Tcp.Passing.{times_lost, passed}
use bcnp.Tcp.Packets.{IsSentAll, packets_arrive}
use mathlib.Core.Path.{subst}
use bcnp.Tests.Datagrams.{hello}
use bcnp.Base.Words.{IsU32}
use bcnp.Packet.Frame.{frame}
use bcnp.Tests.Packets.{alert_header, alert_payload, alert_bytes, alert_view, frame_of_alert}
use bcnp.Tests.Parsers.{parser, Receives-alert}
use bcnp.Tests.Connections.{
  no_text, opening, server_calls, sender, sender_taken, client_calls, client, receiver,
  receiver_heard,
}

sender-IsAccounted : IsAccounted 64 sender
sender-IsAccounted =
    run-IsAccounted no_text opening true true 64 5800 none 0 server_calls (omega arith)

schema_hash_fits : IsU32 schema_hash
schema_hash_fits = omega arith

one_frame : frames (alert_view ∷ []) ≡ alert_bytes
one_frame = append-nil (frame alert_header alert_payload) ∙ frame_of_alert

hello_is : hello ≡ handshake_of schema_hash
unfolding u32_bytes
hello_is = refl

sender_queued : queued_bytes sender.log ≡ handshake_of schema_hash ++ frames (alert_view ∷ [])
sender_queued =
    sender-IsAccounted.account
    ∙ ap (λ l. l ++ content sender.tx) sender_taken.0
    ∙ ap (λ l. (hello ++ alert_bytes) ++ l) sender_taken.1
    ∙ ap (λ l. hello ++ l) (append-nil alert_bytes ∙ sym one_frame)
    ∙ ap (λ l. l ++ frames (alert_view ∷ [])) hello_is

client-silent : (heard_bytes client.log ≡ []) × (times_lost client.log ≡ 0)
unfolding new_adapter open_client begin_client_connect try_connect create_base_socket
    configure_socket close_socket set_expected_schema_hash
client-silent = (refl, refl)

receiver-kept : times_lost receiver.log ≡ 0
unfolding new_adapter open_client begin_client_connect try_connect create_base_socket
    configure_socket close_socket set_expected_schema_hash receive_chunk receive_loop hear pass_up
    process_handshake assemble extract_schema_hash load_u32 get_expected_schema_hash poll_connection
    poll_client try_flush_tx_buffer flush_loop send_handshake own_handshake encode_handshake
    store_u32 enqueue_tx write_ring send_piece advance_ring u32_bytes
receiver-kept = refl

all_sent : IsSentAll 64 0 schema_hash sender client client_calls (alert_view ∷ [])
all_sent = record {
  sender = sender-IsAccounted;
  receiver = run-IsHeard no_text opening true true 64 0 (some 7) 5800 0 [];
  hash_fits = schema_hash_fits;
  queued = sender_queued;
  drained = sender_taken.1;
  silent = client-silent.0;
  kept = receiver-kept ∙ sym client-silent.1;
  arrived = receiver_heard.0 ∙ sym sender_taken.0;
}

Receives-frames :
    Receives message_registry
      (lookup_wire_size message_registry parser)
      15
      parser
      (alert_view ∷ [])
      (frames (alert_view ∷ []))
Receives-frames =
    subst
      (Receives message_registry (lookup_wire_size message_registry parser) 15 parser
        (alert_view ∷ []))
      (sym one_frame) Receives-alert

parser_room :
    All
      (λ c. 15 + length c ≤ length parser.buffer)
      ([] ∷ take 4 alert_bytes ∷ drop 4 alert_bytes ∷ [])
unfolding new_parser set_wire_size_lookup
parser_room = (omega arith, (omega arith, (omega arith, tt)))

packets_arrive_example :
    ((q : StreamParser) × (push_all message_registry parser (passed client client_calls) ≡ some q)
      × Streamed parser q (alert_view ∷ []) [])
    × (is_handshake_complete receiver ≡ (schema_hash == expected_of 0))
packets_arrive_example =
    packets_arrive message_registry (lookup_wire_size message_registry parser) 15 64 0 schema_hash
      sender client client_calls parser (alert_view ∷ []) all_sent Receives-frames (omega arith)
      (subst (All (λ c. 15 + length c ≤ length parser.buffer)) (sym receiver_heard.2) parser_room)
