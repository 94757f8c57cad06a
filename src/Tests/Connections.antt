-- ===== src/Tests/Connections.antt =====
-- A server that sends its handshake and a packet, and a client that hears them in pieces.
use bcnp.Base.{
  ℕ, ◌==◌, ◌&&◌, ◌≡◌, refl, arith, true, false, not, if◌then◌else◌, ltb, Option, none, some, List,
  [], ◌∷◌, ◌++◌, length, take, drop,
}
use bcnp.Wire.{Bytes, load_u32, store_u32, u32_bytes}
use bcnp.Handshake.{encode_handshake, extract_schema_hash}
use bcnp.Tcp.{
  TcpPosixAdapter, Connecting, connected, refused, SendAnswers, takes, would_block, Polling,
  accepted, unreadable, Hearing, RecvAnswers, gives, nothing_waits,
}
use bcnp.Tcp.Ring.{write_ring, enqueue_tx, advance_ring, send_piece}
use bcnp.Tcp.Ring.Content.{content, IsRing}
use bcnp.Tcp.Connection.{
  close_socket, configure_socket, create_base_socket, try_connect, begin_client_connect, flush_loop,
  try_flush_tx_buffer, poll_server, poll_client, poll_connection,
}
use bcnp.Tcp.Session.{
  open_server, open_client, new_adapter, is_handshake_complete, set_expected_schema_hash,
  get_expected_schema_hash, send_bytes, own_handshake, send_handshake, assemble, process_handshake,
  pass_up, hear, receive_loop, receive_chunk,
}
use bcnp.Tcp.Calls.{Call, run}
use bcnp.Tcp.Stream.{queued_bytes, taken_bytes, run_accounts}
use bcnp.Tcp.Assembly.{heard_bytes, up_bytes}
use bcnp.Tcp.Peer.{called, expected_of, run_hears}
use bcnp.Tcp.Passing.{passed}
use bcnp.Tests.Datagrams.{hello}
use bcnp.Tests.Packets.{alert_bytes}

abbrev pub no_text : ℕ → Option ℕ
no_text text = some text

abbrev pub opening : Connecting
opening = record {
  now = 1;
  socket = some 3;
  nodelay_ok = true;
  nonblock_ok = true;
  connect = connected;
}

abbrev pub refusing : Connecting
refusing = record {
  now = 2;
  socket = none;
  nodelay_ok = false;
  nonblock_ok = false;
  connect = refused;
}

abbrev pub polling : Polling
polling = record {
  now = 10;
  accept = accepted 4 true true 10;
  so_error = unreadable;
  flush = would_block;
  connecting = refusing;
}

abbrev pub hearing : SendAnswers → RecvAnswers → Hearing
hearing own recv = record {
  poll = polling;
  flush = would_block;
  handshake = own;
  recv = recv;
  now = 20;
  reply = would_block;
}

abbrev pub waits : Bytes → RecvAnswers
waits [] = nothing_waits
waits (b ∷ bs) = gives b bs

abbrev pub server : TcpPosixAdapter
server = new_adapter no_text opening true true 64 5800 none 0

-- It accepts a client, sends its handshake, and then a packet in three pieces.
abbrev pub server_calls : List Call
server_calls =
    Call.receive 64 (hearing (takes 99 would_block) nothing_waits)
    ∷ Call.send polling (takes 4 (takes 0 (takes 99 would_block))) (some alert_bytes)
    ∷ []

abbrev pub sender : TcpPosixAdapter
sender = run server server_calls

pub sender_taken :
    (taken_bytes sender.log ≡ hello ++ alert_bytes)
    × (content sender.tx ≡ [])
    × (sender.shake.sent ≡ true)
    × (sender.client_socket ≡ some 4)
unfolding new_adapter open_server create_base_socket configure_socket close_socket receive_chunk
    receive_loop poll_connection poll_server try_flush_tx_buffer flush_loop send_handshake
    own_handshake encode_handshake store_u32 enqueue_tx write_ring send_piece advance_ring
    send_bytes u32_bytes
sender_taken = (refl, refl, refl, refl)

run_accounts_example :
    (queued_bytes sender.log ≡ taken_bytes sender.log ++ content sender.tx)
    × IsRing sender.tx
    × (length sender.tx.buffer ≡ 64)
run_accounts_example =
    run_accounts no_text opening true true 64 5800 none 0 server_calls (omega arith)

-- A client that gets the same bytes in pieces of five, seven and eleven.
abbrev pub stream : Bytes
stream = hello ++ alert_bytes

abbrev pub client_calls : List Call
client_calls =
    Call.receive 5 (hearing (takes 99 would_block) (waits stream))
    ∷ Call.receive 64 (hearing would_block (waits (take 7 (drop 5 stream))))
    ∷ Call.receive 64 (hearing would_block (waits (drop 12 stream)))
    ∷ []

abbrev pub client : TcpPosixAdapter
client = called no_text opening true true 64 0 (some 7) 5800 0 []

abbrev pub receiver : TcpPosixAdapter
receiver = called no_text opening true true 64 0 (some 7) 5800 0 client_calls

pub receiver_heard :
    (heard_bytes receiver.log ≡ stream)
    × (up_bytes receiver.log ≡ alert_bytes)
    × (passed client client_calls ≡ [] ∷ take 4 alert_bytes ∷ drop 4 alert_bytes ∷ [])
    × (receiver.shake.complete ≡ true)
    × (receiver.shake.validated ≡ true)
unfolding new_adapter open_client begin_client_connect try_connect create_base_socket
    configure_socket close_socket set_expected_schema_hash receive_chunk receive_loop hear pass_up
    process_handshake assemble extract_schema_hash load_u32 get_expected_schema_hash poll_connection
    poll_client try_flush_tx_buffer flush_loop send_handshake own_handshake encode_handshake
    store_u32 enqueue_tx write_ring send_piece advance_ring u32_bytes
receiver_heard = (refl, refl, refl, refl, refl)

run_hears_example :
    let g = heard_bytes receiver.log in
    (up_bytes receiver.log ≡ drop 8 g)
    × (receiver.shake.complete ≡ not (ltb (length g) 8))
    × (receiver.shake.remote_schema_hash ≡ (if ltb (length g) 8 then 0 else load_u32 (take 8 g) 4))
    × (is_handshake_complete receiver
        ≡ (not (ltb (length g) 8) && (load_u32 (take 8 g) 4 == expected_of 0)))
run_hears_example = run_hears no_text opening true true 64 0 (some 7) 5800 0 client_calls
