-- ===== src/Tcp/Connection.antt =====
-- Opening, losing and polling the connection, and the flush of the ring.
use bcnp.Base.{
  ℕ, suc, ◌+◌, ◌/=◌, min, Bool, true, false, not, ◌&&◌, ◌||◌, Option, none, some, ◌∷◌, ltb,
  if◌then◌else◌,
}
use bcnp.Queue.{milliseconds}
use bcnp.Tcp.{
  TcpPosixAdapter, Shake, opened, closed, lost, Connecting, connected, in_progress, refused,
  SendAnswers, takes, takes_none, interrupted, would_block, broken, fails, accepted, not_accepted,
  unreadable, no_error, still_connecting, connect_error, Polling, reconnect_interval,
  server_client_timeout,
}
use bcnp.Tcp.Ring.{drop_pending_tx, contiguous, send_piece}

abbrev pub is_open : Option ℕ → Bool
is_open none = false
is_open (some fd) = true

-- `close` of a socket that is there.
unfoldable pub close_socket : TcpPosixAdapter → TcpPosixAdapter
close_socket a = elim a.socket [
  | none ↦ a
  | some fd ↦ record a { socket = none; log = closed fd ∷ a.log }
]

unfoldable pub close_client : TcpPosixAdapter → TcpPosixAdapter
close_client a = elim a.client_socket [
  | none ↦ a
  | some fd ↦ record a { client_socket = none; log = closed fd ∷ a.log }
]

unfoldable pub configure_socket : Bool → Bool → Bool
configure_socket nodelay_ok nonblock_ok =
    if not nodelay_ok then false else if not nonblock_ok then false else true

unfoldable pub create_base_socket : Connecting → TcpPosixAdapter → Bool × TcpPosixAdapter
create_base_socket io a =
    let b = close_socket a in
    elim io.socket [
      | none ↦ (false, b)
      | some fd ↦
          let c = record b { socket = some fd; log = opened fd ∷ b.log } in
          if not (configure_socket io.nodelay_ok io.nonblock_ok)
          then (false, record c { socket = none; log = closed fd ∷ c.log })
          else (true, record c { is_connected = false; connect_in_progress = false })
    ]

-- The part of `BeginClientConnect` behind the two early returns.
unfoldable pub try_connect : Connecting → TcpPosixAdapter → TcpPosixAdapter
try_connect io a =
    let (ok, c) =
      create_base_socket io
        (record a { next_reconnect_attempt = io.now + milliseconds reconnect_interval }) in
    if not ok then c else elim io.connect [
      | connected ↦ record c { is_connected = true; connect_in_progress = false }
      | in_progress ↦ record c { connect_in_progress = true }
      | refused ↦ record (close_socket c) { connect_in_progress = false; is_connected = false }
    ]

unfoldable pub begin_client_connect : Bool → Connecting → TcpPosixAdapter → TcpPosixAdapter
begin_client_connect force_immediate io a =
    if a.is_server || not a.peer_addr_valid
    then a
    else if not force_immediate && ltb io.now a.next_reconnect_attempt
    then a
    else try_connect io a

-- The handshake of a connection that is not made yet.
unfoldable pub forget_shake : Shake → Shake
forget_shake s = record s {
  complete = false;
  sent = false;
  validated = false;
  received = 0;
  remote_schema_hash = 0;
}

unfoldable pub handle_connection_loss : Connecting → TcpPosixAdapter → TcpPosixAdapter
handle_connection_loss io a =
    let b =
      drop_pending_tx
        (record a { is_connected = false; shake = forget_shake a.shake; log = lost ∷ a.log }) in
    if a.is_server
    then record (close_client b) { last_server_rx = 0 }
    else begin_client_connect true io (record (close_socket b) { connect_in_progress = false })

-- The loop of `TryFlushTxBuffer` on the socket `fd`.
unfoldable pub flush_loop : ℕ → SendAnswers → TcpPosixAdapter → TcpPosixAdapter
flush_loop fd (takes n rest) a =
    let next = flush_loop fd rest (send_piece fd (min (suc n) (contiguous a.tx)) a) in
    if ltb 0 a.tx.size && a.is_connected then next else a
flush_loop fd (takes_none io) a =
    if ltb 0 a.tx.size && a.is_connected then drop_pending_tx (handle_connection_loss io a) else a
flush_loop fd (interrupted rest) a =
    let next = flush_loop fd rest a in if ltb 0 a.tx.size && a.is_connected then next else a
flush_loop fd would_block a = a
flush_loop fd (broken io) a =
    if ltb 0 a.tx.size && a.is_connected then drop_pending_tx (handle_connection_loss io a) else a
flush_loop fd fails a = if ltb 0 a.tx.size && a.is_connected then drop_pending_tx a else a

unfoldable pub try_flush_tx_buffer : Option ℕ → SendAnswers → TcpPosixAdapter → TcpPosixAdapter
try_flush_tx_buffer none answers a = a
try_flush_tx_buffer (some fd) answers a = flush_loop fd answers a

-- Whether the client of a server has been silent for too long.
abbrev pub is_zombie : TcpPosixAdapter → ℕ → Bool
is_zombie a now =
    a.last_server_rx /= 0 && ltb (a.last_server_rx + milliseconds server_client_timeout) now

-- `PollConnection` of a server that listens.
unfoldable pub poll_server : Polling → TcpPosixAdapter → TcpPosixAdapter
poll_server io a = elim a.client_socket [
  | some fd ↦
      if is_zombie a io.now
      then record (close_client a) { is_connected = false; last_server_rx = 0 }
      else record a { is_connected = true }
  | none ↦ elim io.accept [
    | accepted fd nodelay_ok nonblock_ok now ↦
        if not (configure_socket nodelay_ok nonblock_ok)
        then record a { log = closed fd ∷ opened fd ∷ a.log }
        else try_flush_tx_buffer (some fd) io.flush (record a {
          client_socket = some fd;
          is_connected = true;
          last_server_rx = now;
          log = opened fd ∷ a.log;
        })
    | not_accepted ↦ a
  ]
]

-- `PollConnection` of a client.
unfoldable pub poll_client : Polling → TcpPosixAdapter → TcpPosixAdapter
poll_client io a = elim a.socket [
  | none ↦ begin_client_connect false io.connecting a
  | some fd ↦
      if not a.is_connected && a.connect_in_progress
      then elim io.so_error [
        | unreadable ↦ a
        | no_error ↦
            try_flush_tx_buffer (some fd) io.flush
              (record a { is_connected = true; connect_in_progress = false })
        | still_connecting ↦ a
        | connect_error ↦
            begin_client_connect false io.connecting
              (record (close_socket a) { connect_in_progress = false })
      ]
      else if not a.is_connected
      then begin_client_connect false io.connecting a
      else a
]

unfoldable pub poll_connection : Polling → TcpPosixAdapter → TcpPosixAdapter
poll_connection io a =
    if a.is_server then if not (is_open a.socket) then a else poll_server io a else poll_client io a
