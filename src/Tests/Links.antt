-- ===== src/Tests/Links.antt =====
-- A connection that is flushed, lost, timed out, and never made.
use bcnp.Base.{
  ℕ, ◌<◌, ◌+◌, ◌==◌, ◌||◌, ◌&&◌, ◌≡◌, refl, arith, true, false, replicate, none, some, List, [],
  ◌∷◌, ◌++◌, length, take, drop,
}
use bcnp.Wire.{store_u32, u32_bytes}
use bcnp.Handshake.{encode_handshake}
use bcnp.Handshake.Laws.{handshake_of}
use bcnp.Tcp.{
  TcpPosixAdapter, would_block, broken, Polling, accepted, connect_error, Hearing, nothing_waits,
  Shake, TxRing, queued, closed,
}
use bcnp.Tcp.Ring.{write_ring, enqueue_tx}
use bcnp.Tcp.Ring.Content.{content}
use bcnp.Tcp.Connection.{
  is_open, close_socket, configure_socket, create_base_socket, try_connect, flush_loop,
  try_flush_tx_buffer, poll_server, poll_connection,
}
use bcnp.Tcp.Session.{
  open_server, new_adapter, delete_adapter, get_expected_schema_hash, target_socket, send_bytes,
  own_handshake, send_handshake, receive_loop, receive_chunk,
}
use bcnp.Tcp.Calls.{Call, run}
use bcnp.Tcp.Stream.{IsAccounted, run-IsAccounted}
use bcnp.Tcp.Descriptors.{times_opened, times_closed, times_held, no_descriptor_left}
use bcnp.Tcp.Flush.{Answer, room, signal, serve, IsDrained, flush_drains}
use bcnp.Tcp.Loss.{lost_handshake_counts}
use bcnp.Tcp.Zombie.{zombie_leaves_handshake}
use bcnp.Tcp.Reconnect.{receives, receives_stay_closed}
use bcnp.Tcp.Send.{has_room, send_bytes_accepts, data_before_handshake}
use bcnp.Tests.Datagrams.{hello}
use bcnp.Tests.Connections.{no_text, opening, refusing, polling, hearing, waits}

-- A server that has accepted a client and waits.
abbrev waiting_calls : List Call
waiting_calls = Call.receive 64 (hearing would_block nothing_waits) ∷ []

abbrev waiting : TcpPosixAdapter
waiting = run (new_adapter no_text opening true true 64 5800 none 0) waiting_calls

-- Its handshake waits in the ring.
waiting_is :
    (waiting.tx.size ≡ 8)
    × (waiting.is_connected ≡ true)
    × (waiting.client_socket ≡ some 4)
    × (content waiting.tx ≡ hello)
unfolding new_adapter open_server create_base_socket configure_socket close_socket receive_chunk
    receive_loop poll_connection poll_server try_flush_tx_buffer flush_loop send_handshake
    own_handshake encode_handshake store_u32 enqueue_tx write_ring u32_bytes
waiting_is = (refl, refl, refl, refl)

no_descriptor_left_example :
    let d = delete_adapter waiting in
    (times_opened 4 waiting.log
      ≡ times_closed 4 waiting.log
        + (times_held 4 waiting.socket + times_held 4 waiting.client_socket))
    × (times_opened 4 d.log ≡ times_closed 4 d.log)
no_descriptor_left_example =
    no_descriptor_left no_text opening true true 64 5800 none 0 waiting_calls 4

-- Four calls that take two bytes each, one that is interrupted, and four that take the rest.
abbrev served : List Answer
served = room 1 ∷ room 1 ∷ signal ∷ room 1 ∷ room 1 ∷ room 1 ∷ room 1 ∷ room 1 ∷ room 1 ∷ []

flush_drains_example : IsDrained waiting (flush_loop 4 (serve served) waiting)
flush_drains_example =
    flush_drains 4 served waiting
      (run-IsAccounted no_text opening true true 64 5800 none 0 waiting_calls (omega arith)).ring
      waiting_is.1 (omega (arith, waiting_is.0))

-- A server whose client is there, before its handshake is sent.
abbrev quiet : Shake
quiet = record {
  complete = false;
  sent = false;
  validated = false;
  remote_schema_hash = 0;
  bytes = 0 ∷ 0 ∷ 0 ∷ 0 ∷ 0 ∷ 0 ∷ 0 ∷ 0 ∷ [];
  received = 0;
}

abbrev linked : TcpPosixAdapter
linked = record {
  socket = some 3;
  client_socket = some 4;
  is_server = true;
  is_connected = true;
  connect_in_progress = false;
  expected_schema_hash = 0;
  peer_addr = record { addr = 0; port = 0 };
  peer_addr_valid = false;
  next_reconnect_attempt = 0;
  last_server_rx = 10;
  shake = quiet;
  tx = record { buffer = replicate 64 0; head = 0; tail = 0; size = 0 };
  log = [];
}

lost_handshake_counts_example :
    let (ok, b) = send_handshake (broken refusing) linked in
    (ok ≡ true)
    × (content b.tx ≡ [])
    × (b.shake ≡ record quiet {
      complete = false;
      sent = true;
      validated = false;
      received = 0;
      remote_schema_hash = 0;
    })
lost_handshake_counts_example = lost_handshake_counts refusing linked 4 refl refl refl

abbrev shaken : TcpPosixAdapter
shaken = record linked { shake = record quiet { complete = true; sent = true; validated = true } }

abbrev late : Polling
late = record polling { now = 6_000_000_000 }

abbrev next_client : Hearing
next_client = record (hearing would_block (waits hello)) {
  poll = record polling { accept = accepted 5 true true 6_000_000_001 };
}

zombie_leaves_handshake_example :
    let (up, b) = receive_chunk 64 next_client (poll_connection late shaken) in
    (up ≡ take 64 hello) × (b.shake ≡ shaken.shake) × (b.client_socket ≡ some 5)
zombie_leaves_handshake_example =
    zombie_leaves_handshake 64 4 5 6_000_000_001 late next_client b'B' (drop 1 hello) shaken
      (record { server = refl; listens = refl }) refl refl refl refl refl refl refl refl
      (omega arith)

-- A client that waits for its connection.
abbrev hopeful : TcpPosixAdapter
hopeful = record linked {
  is_server = false;
  client_socket = none;
  is_connected = false;
  connect_in_progress = true;
  peer_addr_valid = true;
  next_reconnect_attempt = 1_000_000_000;
}

abbrev bad_news : Hearing
bad_news = record (hearing would_block nothing_waits) {
  poll = record polling { so_error = connect_error };
}

abbrev much_later : Polling
much_later = record polling { connecting = record refusing { now = 9_000_000_000 } }

receives_stay_closed_example :
    let (up, b) = receive_chunk 64 bad_news hopeful in
    let cs : List (ℕ × Hearing) = (64, next_client) ∷ (64, next_client) ∷ [] in
    (up ≡ [])
    × (b ≡ record hopeful {
      socket = none;
      connect_in_progress = false;
      log = closed 3 ∷ hopeful.log;
    })
    × (run b (receives cs) ≡ b)
    × (poll_connection much_later (run b (receives cs)) ≡ try_connect much_later.connecting b)
receives_stay_closed_example =
    receives_stay_closed hopeful 3 refl refl refl refl refl 64 bad_news
      ((64, next_client) ∷ (64, next_client) ∷ []) much_later (omega arith) refl (omega arith)
      (omega arith)

linked-IsAccounted : IsAccounted 64 linked
linked-IsAccounted = record {
  capacity = refl;
  ring = record { head_in = omega arith; size_le = omega arith; tail_is = refl };
  account = refl;
}

send_bytes_accepts_example :
    let b = poll_connection polling linked in
    let (ok, c) = send_bytes polling would_block linked (some hello) in
    (ok ≡ (
      length hello == 0
      || (is_open (target_socket b) && (b.is_connected && has_room 64 b.tx (length hello)))))
    × (ok ≡ false → c ≡ b)
    × (ok ≡ true
        → 0 < length hello
        → (r : TxRing) × (content r ≡ content b.tx ++ hello)
          × (length r.buffer ≡ 64)
          × (c
              ≡ try_flush_tx_buffer
                  (target_socket b)
                  would_block
                  (record b { tx = r; log = queued hello ∷ b.log })))
send_bytes_accepts_example =
    send_bytes_accepts 64 polling would_block linked hello linked-IsAccounted

-- A client that is connected.
abbrev client_linked : TcpPosixAdapter
client_linked = record linked { is_server = false; client_socket = none }

client_linked-IsAccounted : IsAccounted 64 client_linked
client_linked-IsAccounted = linked-IsAccounted

data_before_handshake_example :
    let b = (send_bytes polling would_block client_linked (some (1 ∷ 2 ∷ []))).1 in
    let c = (send_handshake would_block b).1 in
    content c.tx
    ≡ (content client_linked.tx ++ (1 ∷ 2 ∷ []))
      ++ handshake_of (get_expected_schema_hash client_linked)
data_before_handshake_example =
    data_before_handshake 64 polling client_linked 3 (1 ∷ 2 ∷ []) client_linked-IsAccounted refl
      refl refl (omega arith) (omega arith) (omega arith)
