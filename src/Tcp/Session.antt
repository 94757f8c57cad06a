-- ===== src/Tcp/Session.antt =====
-- The constructor, the destructor, and what a caller of the adapter asks of it.
use bcnp.Base.{
  ℕ, ◌+◌, ◌-◌, ◌==◌, ◌/=◌, min, Bool, true, false, not, ◌&&◌, ◌||◌, Option, none, some, [], ◌∷◌,
  ltb, if◌then◌else◌, length, take, drop, replicate, write_at,
}
use bcnp.Wire.{Bytes}
use bcnp.Handshake.{
  handshake_size, schema_hash, encode_handshake, encode_handshake_with_hash, extract_schema_hash,
}
use bcnp.Udp.{no_addr}
use bcnp.Tcp.{
  TcpPosixAdapter, Shake, heard, Connecting, SendAnswers, Polling, RecvAnswers, recv_interrupted,
  gives, gives_none, nothing_waits, recv_broken, recv_fails, Hearing,
}
use bcnp.Tcp.Ring.{enqueue_tx}
use bcnp.Tcp.Connection.{
  is_open, close_socket, close_client, create_base_socket, begin_client_connect,
  handle_connection_loss, try_flush_tx_buffer, poll_connection,
}

-- The members before the constructor's body, with a ring of `capacity` bytes.
abbrev pub blank : ℕ → TcpPosixAdapter
blank capacity = record {
  socket = none;
  client_socket = none;
  is_server = false;
  is_connected = false;
  connect_in_progress = false;
  expected_schema_hash = 0;
  peer_addr = no_addr;
  peer_addr_valid = false;
  next_reconnect_attempt = 0;
  last_server_rx = 0;
  shake = record {
    complete = false;
    sent = false;
    validated = false;
    remote_schema_hash = 0;
    bytes = replicate handshake_size 0;
    received = 0;
  };
  tx = record { buffer = replicate capacity 0; head = 0; tail = 0; size = 0 };
  log = [];
}

-- The server's part of the constructor.
unfoldable pub open_server : Connecting → Bool → Bool → TcpPosixAdapter → TcpPosixAdapter
open_server io bind_ok listen_ok a =
    let (ok, b) = create_base_socket io (record a { is_server = true }) in
    if not ok
    then b
    else if not bind_ok
    then close_socket b
    else if not listen_ok
    then close_socket b
    else b

-- `inet_pton` reads an address from its text; `none` is a null pointer.
unfoldable pub open_client {ℓ} :
    {Text : Type ℓ}
    → (Text → Option ℕ)
    → Connecting
    → Option Text
    → ℕ
    → TcpPosixAdapter
    → TcpPosixAdapter
open_client inet_pton io none target_port a = a
open_client inet_pton io (some text) target_port a =
    if target_port == 0 then a else elim (inet_pton text) [
      | none ↦ a
      | some ip ↦ begin_client_connect true io (record a {
        peer_addr = record { addr = ip; port = target_port };
        peer_addr_valid = true;
      })
    ]

unfoldable pub new_adapter {ℓ} :
    {Text : Type ℓ}
    → (Text → Option ℕ)
    → Connecting
    → Bool
    → Bool
    → ℕ
    → ℕ
    → Option Text
    → ℕ
    → TcpPosixAdapter
new_adapter inet_pton io bind_ok listen_ok capacity listen_port target_ip target_port =
    if ltb 0 listen_port
    then open_server io bind_ok listen_ok (blank capacity)
    else open_client inet_pton io target_ip target_port (blank capacity)

unfoldable pub delete_adapter : TcpPosixAdapter → TcpPosixAdapter
delete_adapter a = close_socket (close_client a)

abbrev is_valid : TcpPosixAdapter → Bool
is_valid a = is_open a.socket || (not a.is_server && a.peer_addr_valid)

abbrev is_connected : TcpPosixAdapter → Bool
is_connected a = a.is_connected && a.shake.complete

unfoldable pub is_handshake_complete : TcpPosixAdapter → Bool
is_handshake_complete a = a.shake.complete && a.shake.validated

unfoldable pub set_expected_schema_hash : TcpPosixAdapter → ℕ → TcpPosixAdapter
set_expected_schema_hash a hash = record a { expected_schema_hash = hash }

unfoldable pub get_expected_schema_hash : TcpPosixAdapter → ℕ
get_expected_schema_hash a =
    if a.expected_schema_hash /= 0 then a.expected_schema_hash else schema_hash

abbrev pub target_socket : TcpPosixAdapter → Option ℕ
target_socket a = if a.is_server then a.client_socket else a.socket

-- A null pointer is `none`.
unfoldable pub send_bytes :
    Polling → SendAnswers → TcpPosixAdapter → Option Bytes → Bool × TcpPosixAdapter
send_bytes poll answers a none = (true, a)
send_bytes poll answers a (some data_) =
    if length data_ == 0
    then (true, a)
    else (let b = poll_connection poll a in
        let (ok, c) = enqueue_tx data_ b in
        if not (is_open (target_socket b)) || not b.is_connected
        then (false, b)
        else if ltb (length b.tx.buffer) (length data_)
        then (false, b)
        else if not ok
        then (false, c)
        else (true, try_flush_tx_buffer (target_socket b) answers c))

unfoldable pub own_handshake : TcpPosixAdapter → Option Bytes
own_handshake a =
    if a.expected_schema_hash /= 0
    then encode_handshake_with_hash (replicate handshake_size 0) handshake_size
        a.expected_schema_hash
    else encode_handshake (replicate handshake_size 0) handshake_size

unfoldable pub send_handshake : SendAnswers → TcpPosixAdapter → Bool × TcpPosixAdapter
send_handshake answers a =
    if not (is_open (target_socket a)) || not a.is_connected
    then (false, a)
    else elim (own_handshake a) [
      | none ↦ (false, a)
      | some handshake ↦
          let (ok, b) = enqueue_tx handshake a in
          let c = try_flush_tx_buffer (target_socket a) answers b in
          if not ok then (false, b) else (true, record c { shake = record c.shake { sent = true } })
    ]

-- The part of `ProcessHandshake` that collects the bytes and compares the hash.
unfoldable pub assemble : ℕ → Bytes → Shake → Shake
assemble expected data_ s =
    let to_read = min (length data_) (handshake_size - s.received) in
    let t = record s {
      bytes = write_at s.bytes s.received (take to_read data_);
      received = s.received + to_read;
    } in
    let remote = extract_schema_hash t.bytes handshake_size in
    if ltb t.received handshake_size
    then t
    else if remote /= expected
    then record t { remote_schema_hash = remote; validated = false; complete = true }
    else record t { remote_schema_hash = remote; validated = true; complete = true }

unfoldable pub process_handshake : SendAnswers → Bytes → TcpPosixAdapter → Bool × TcpPosixAdapter
process_handshake reply data_ a =
    let b = record a { shake = assemble (get_expected_schema_hash a) data_ a.shake } in
    if ltb b.shake.received handshake_size
    then (false, b)
    else if not b.shake.validated
    then (true, b)
    else if not b.shake.sent
    then (true, (send_handshake reply b).1)
    else (true, b)

-- What becomes of the bytes that `recv` gives.
unfoldable pub pass_up : SendAnswers → Bytes → TcpPosixAdapter → Bytes × TcpPosixAdapter
pass_up reply got a =
    if not a.shake.complete
    then (let consumed = min (length got) (handshake_size - a.shake.received) in
        let b = record a { log = heard got (drop consumed got) ∷ a.log } in
        (drop consumed got, (process_handshake reply (take consumed got) b).1))
    else (got, record a { log = heard got got ∷ a.log })

-- The part of `ReceiveChunk` behind a `recv` that gives `got`.
unfoldable pub hear : Hearing → Bytes → TcpPosixAdapter → Bytes × TcpPosixAdapter
hear io got a =
    pass_up io.reply got (if a.is_server then record a { last_server_rx = io.now } else a)

-- The part of `ReceiveChunk` from `recv` on.
unfoldable pub receive_loop : ℕ → Hearing → RecvAnswers → TcpPosixAdapter → Bytes × TcpPosixAdapter
receive_loop max_length io (recv_interrupted rest) a = receive_loop max_length io rest a
receive_loop max_length io (gives b bs) a = hear io (take max_length (b ∷ bs)) a
receive_loop max_length io (gives_none connecting) a = ([], handle_connection_loss connecting a)
receive_loop max_length io nothing_waits a = ([], a)
receive_loop max_length io (recv_broken connecting) a = ([], handle_connection_loss connecting a)
receive_loop max_length io recv_fails a = ([], a)

-- The bytes that are passed up; the buffer is there.
unfoldable pub receive_chunk : ℕ → Hearing → TcpPosixAdapter → Bytes × TcpPosixAdapter
receive_chunk max_length io a =
    if not (is_open a.socket) || max_length == 0
    then ([], a)
    else (let b = poll_connection io.poll a in
        let c = try_flush_tx_buffer (target_socket b) io.flush b in
        let d = if not c.shake.sent then (send_handshake io.handshake c).1 else c in
        if not (is_open (target_socket b)) || not b.is_connected
        then ([], b)
        else receive_loop max_length io io.recv d)
