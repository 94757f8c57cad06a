-- ===== src/Tcp/Invariant/Talking.antt =====
-- An invariant survives the flush, the polling of the connection, and the calls of the adapter.
use bcnp.Base.{
  ℕ, suc, ◌==◌, ◌≡◌, arith, min, Bool, true, false, not, ◌||◌, ◌&&◌, Option, none, some, ◌∷◌, ltb,
  length, if◌then◌else◌,
}
use bcnp.Wire.{Bytes}
use bcnp.Tcp.{
  TcpPosixAdapter, opened, closed, SendAnswers, takes, takes_none, interrupted, would_block, broken,
  fails, AcceptAnswer, accepted, not_accepted, SoError, unreadable, no_error, still_connecting,
  connect_error, Polling,
}
use bcnp.Tcp.Ring.{contiguous, send_piece, takes_bytes, enqueue_tx}
use bcnp.Tcp.Connection.{
  close_socket, close_client, configure_socket, begin_client_connect, flush_loop,
  try_flush_tx_buffer, is_zombie, poll_server, poll_client, poll_connection, is_open,
}
use bcnp.Tcp.Session.{target_socket, own_handshake, send_handshake, send_bytes}
use bcnp.Tcp.Invariant.{LinkInvariant}
use bcnp.Base.Choices.{choose, choose_option}
use bcnp.Tcp.Invariant.Connecting.{
  close_socket-kept, close_client-kept, begin_client_connect-kept, handle_connection_loss-kept,
}

module _ (P : TcpPosixAdapter → Type 0) (inv : LinkInvariant P) where
  pub flush_loop-kept :
      (fd : ℕ) (answers : SendAnswers) (a : TcpPosixAdapter) → P a → P (flush_loop fd answers a)
  unfolding flush_loop
  flush_loop-kept fd (takes n rest) a p =
      let k = min (suc n) (contiguous a.tx) in
      choose P (ltb 0 a.tx.size && a.is_connected) _ a
        (λ e. flush_loop-kept fd rest (send_piece fd k a) (inv.taken a fd k (omega arith) p))
        (λ e. p)
  flush_loop-kept fd (takes_none io) a p =
      choose P (ltb 0 a.tx.size && a.is_connected) _ a
        (λ e. inv.dropped _ (handle_connection_loss-kept P inv io a p)) (λ e. p)
  flush_loop-kept fd (interrupted rest) a p =
      choose P (ltb 0 a.tx.size && a.is_connected) _ a (λ e. flush_loop-kept fd rest a p) (λ e. p)
  flush_loop-kept fd would_block a p = p
  flush_loop-kept fd (broken io) a p =
      choose P (ltb 0 a.tx.size && a.is_connected) _ a
        (λ e. inv.dropped _ (handle_connection_loss-kept P inv io a p)) (λ e. p)
  flush_loop-kept fd fails a p =
      choose P (ltb 0 a.tx.size && a.is_connected) _ a (λ e. inv.dropped a p) (λ e. p)

  pub try_flush-kept :
      (target : Option ℕ) (answers : SendAnswers) (a : TcpPosixAdapter)
      → P a
      → P (try_flush_tx_buffer target answers a)
  unfolding try_flush_tx_buffer
  try_flush-kept none answers a p = p
  try_flush-kept (some fd) answers a p = flush_loop-kept fd answers a p

  accepted-kept :
      (flush : SendAnswers) (answer : AcceptAnswer) (a : TcpPosixAdapter)
      → a.client_socket ≡ none
      → P a
      → P (elim answer as (λ x. TcpPosixAdapter) [
        | accepted fd nodelay_ok nonblock_ok now ↦
            if not (configure_socket nodelay_ok nonblock_ok)
            then record a { log = closed fd ∷ opened fd ∷ a.log }
            else try_flush_tx_buffer (some fd) flush (record a {
              client_socket = some fd;
              is_connected = true;
              last_server_rx = now;
              log = opened fd ∷ a.log;
            })
        | not_accepted ↦ a
      ])
  accepted-kept flush (accepted fd nodelay_ok nonblock_ok now) a free p =
      choose P (not (configure_socket nodelay_ok nonblock_ok)) _ _
        (λ bad. inv.refused_client a fd p)
        (λ good.
          try_flush-kept (some fd) flush _
            (inv.tuned _ true _ _ now (inv.opened_client a fd free p)))
  accepted-kept flush not_accepted a free p = p

  poll_server-kept : (io : Polling) (a : TcpPosixAdapter) → P a → P (poll_server io a)
  unfolding poll_server
  poll_server-kept io a p =
      choose_option P a.client_socket _ _ (λ free. accepted-kept io.flush io.accept a free p)
        (λ fd there.
          choose P (is_zombie a io.now) _ _
            (λ silent. inv.tuned (close_client a) false _ _ 0 (close_client-kept P inv a p))
            (λ alive. inv.tuned a true _ _ _ p))

  connecting-kept :
      (io : Polling) (fd : ℕ) (answer : SoError) (a : TcpPosixAdapter)
      → P a
      → P (elim answer as (λ x. TcpPosixAdapter) [
        | unreadable ↦ a
        | no_error ↦
            try_flush_tx_buffer
              (some fd)
              io.flush
              (record a { is_connected = true; connect_in_progress = false })
        | still_connecting ↦ a
        | connect_error ↦
            begin_client_connect false io.connecting
              (record (close_socket a) { connect_in_progress = false })
      ])
  connecting-kept io fd unreadable a p = p
  connecting-kept io fd no_error a p =
      try_flush-kept (some fd) io.flush _ (inv.tuned a true false _ _ p)
  connecting-kept io fd still_connecting a p = p
  connecting-kept io fd connect_error a p =
      begin_client_connect-kept P inv.sockets false io.connecting _
        (inv.tuned (close_socket a) _ false _ _ (close_socket-kept P inv.sockets a p))

  poll_client-kept : (io : Polling) (a : TcpPosixAdapter) → P a → P (poll_client io a)
  unfolding poll_client
  poll_client-kept io a p =
      choose_option P a.socket _ _
        (λ closed_. begin_client_connect-kept P inv.sockets false io.connecting a p)
        (λ fd there.
          choose P (not a.is_connected && a.connect_in_progress) _ _
            (λ waits. connecting-kept io fd io.so_error a p)
            (λ e.
              choose P (not a.is_connected) _ a
                (λ idle. begin_client_connect-kept P inv.sockets false io.connecting a p)
                (λ up. p)))

  pub poll_connection-kept : (io : Polling) (a : TcpPosixAdapter) → P a → P (poll_connection io a)
  unfolding poll_connection
  poll_connection-kept io a p =
      choose P a.is_server _ _
        (λ server. choose P (not (is_open a.socket)) a _ (λ e. p) (λ e. poll_server-kept io a p))
        (λ client. poll_client-kept io a p)

  pub enqueue_tx-kept : (bytes : Bytes) (a : TcpPosixAdapter) → P a → P (enqueue_tx bytes a).1
  unfolding enqueue_tx
  enqueue_tx-kept bytes a p =
      choose (λ (r : Bool × TcpPosixAdapter). P r.1) (length bytes == 0) (true, a) _ (λ empty. p)
        (λ some_bytes.
          choose (λ (r : Bool × TcpPosixAdapter). P r.1) (takes_bytes a.tx (length bytes)) _
            (false, a) (λ room. inv.queued a bytes room p) (λ full. p))

  pub send_bytes-kept :
      (poll : Polling) (answers : SendAnswers) (a : TcpPosixAdapter) (data_ : Option Bytes)
      → P a
      → P (send_bytes poll answers a data_).1
  unfolding send_bytes
  send_bytes-kept poll answers a none p = p
  send_bytes-kept poll answers a (some data_) p =
      let R : Bool × TcpPosixAdapter → Type 0 = (λ r. P r.1) in
      let b = poll_connection poll a in
      let q = poll_connection-kept poll a p in
      let c = (enqueue_tx data_ b).1 in
      let s = enqueue_tx-kept data_ b q in
      choose R (length data_ == 0) (true, a) _ (λ e. p)
        (λ e.
          choose R (not (is_open (target_socket b)) || not b.is_connected) (false, b) _ (λ mute. q)
            (λ talks.
              choose R (ltb (length b.tx.buffer) (length data_)) (false, b) _ (λ big. q)
                (λ fits.
                  choose R (not (enqueue_tx data_ b).0) (false, c) _ (λ full. s)
                    (λ room. try_flush-kept (target_socket b) answers c s))))

  pub send_handshake-kept :
      (answers : SendAnswers) (a : TcpPosixAdapter) → P a → P (send_handshake answers a).1
  unfolding send_handshake
  send_handshake-kept answers a p =
      let R : Bool × TcpPosixAdapter → Type 0 = (λ r. P r.1) in
      choose R (not (is_open (target_socket a)) || not a.is_connected) (false, a) _ (λ mute. p)
        (λ talks.
          choose_option R (own_handshake a) (false, a) _ (λ e. p)
            (λ handshake e.
              let q = enqueue_tx-kept handshake a p in
              choose R (not (enqueue_tx handshake a).0) (false, (enqueue_tx handshake a).1) _
                (λ full. q) (λ room. inv.marked _ (try_flush-kept (target_socket a) answers _ q))))
