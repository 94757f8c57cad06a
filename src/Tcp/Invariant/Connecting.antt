-- ===== src/Tcp/Invariant/Connecting.antt =====
-- An invariant survives the operations that open and close sockets.
use bcnp.Base.{◌+◌, ◌≡◌, refl, Bool, true, false, not, ◌||◌, ◌&&◌, none, ◌∷◌, ltb}
use bcnp.Queue.{milliseconds}
use bcnp.Tcp.{
  TcpPosixAdapter, closed, lost, Connecting, ConnectAnswer, connected, in_progress, refused,
  reconnect_interval,
}
use bcnp.Tcp.Ring.{drop_pending_tx}
use bcnp.Tcp.Connection.{
  close_socket, close_client, configure_socket, create_base_socket, try_connect,
  begin_client_connect, forget_shake, handle_connection_loss,
}
use bcnp.Tcp.Invariant.{SocketInvariant, LinkInvariant}
use bcnp.Base.Choices.{choose, choose_option}

close_socket-none : (a : TcpPosixAdapter) → (close_socket a).socket ≡ none
unfolding close_socket
close_socket-none a =
    choose_option (λ b. b.socket ≡ none) a.socket a
      (λ fd. record a { socket = none; log = closed fd ∷ a.log }) (λ e. e) (λ fd e. refl)

module _ (P : TcpPosixAdapter → Type 0) (inv : SocketInvariant P) where
  pub close_socket-kept : (a : TcpPosixAdapter) → P a → P (close_socket a)
  unfolding close_socket
  close_socket-kept a p =
      choose_option P a.socket a (λ fd. record a { socket = none; log = closed fd ∷ a.log })
        (λ e. p) (λ fd e. inv.closed_base a fd e p)

  pub create_base_socket-kept :
      (io : Connecting) (a : TcpPosixAdapter) → P a → P (create_base_socket io a).1
  unfolding create_base_socket
  create_base_socket-kept io a p =
      choose_option (λ (r : Bool × TcpPosixAdapter). P r.1) io.socket _ _
        (λ e. close_socket-kept a p)
        (λ fd e.
          let c =
            inv.opened_base (close_socket a) fd (close_socket-none a) (close_socket-kept a p) in
          choose (λ (r : Bool × TcpPosixAdapter). P r.1)
            (not (configure_socket io.nodelay_ok io.nonblock_ok)) _ _
            (λ bad. inv.closed_base _ fd refl c) (λ good. inv.tuned _ false false _ _ c))

  try_connect-kept : (io : Connecting) (a : TcpPosixAdapter) → P a → P (try_connect io a)
  unfolding try_connect
  try_connect-kept io a p =
      let next = io.now + milliseconds reconnect_interval in
      let timed = record a { next_reconnect_attempt = next } in
      let c = (create_base_socket io timed).1 in
      let q = create_base_socket-kept io timed (inv.tuned a _ _ next _ p) in
      choose P (not (create_base_socket io timed).0) c _ (λ bad. q)
        (λ good. answered io.connect c q)
    where
      answered :
          (r : ConnectAnswer) (c : TcpPosixAdapter)
          → P c
          → P (elim r as (λ x. TcpPosixAdapter) [
            | connected ↦ record c { is_connected = true; connect_in_progress = false }
            | in_progress ↦ record c { connect_in_progress = true }
            | refused ↦ record (close_socket c) {
              connect_in_progress = false;
              is_connected = false;
            }
          ])
      answered connected c q = inv.tuned c true false _ _ q
      answered in_progress c q = inv.tuned c _ true _ _ q
      answered refused c q = inv.tuned (close_socket c) false false _ _ (close_socket-kept c q)

  pub begin_client_connect-kept :
      (force : Bool) (io : Connecting) (a : TcpPosixAdapter)
      → P a
      → P (begin_client_connect force io a)
  unfolding begin_client_connect
  begin_client_connect-kept force io a p =
      choose P (a.is_server || not a.peer_addr_valid) a _ (λ e. p)
        (λ e.
          choose P (not force && ltb io.now a.next_reconnect_attempt) a _ (λ early. p)
            (λ due. try_connect-kept io a p))

module _ (P : TcpPosixAdapter → Type 0) (inv : LinkInvariant P) where
  pub close_client-kept : (a : TcpPosixAdapter) → P a → P (close_client a)
  unfolding close_client
  close_client-kept a p =
      choose_option P a.client_socket a
        (λ fd. record a { client_socket = none; log = closed fd ∷ a.log }) (λ e. p)
        (λ fd e. inv.closed_client a fd e p)

  pub handle_connection_loss-kept :
      (io : Connecting) (a : TcpPosixAdapter) → P a → P (handle_connection_loss io a)
  unfolding handle_connection_loss
  handle_connection_loss-kept io a p =
      let b =
        drop_pending_tx
          (record a { is_connected = false; shake = forget_shake a.shake; log = lost ∷ a.log }) in
      let q : P b = inv.dropped _ (inv.lost _ (inv.tuned a false _ _ _ p)) in
      choose P a.is_server _ _
        (λ server. inv.tuned (close_client b) _ _ _ 0 (close_client-kept b q))
        (λ client.
          begin_client_connect-kept P inv.sockets true io
            (record (close_socket b) { connect_in_progress = false })
            (inv.tuned (close_socket b) _ false _ _ (close_socket-kept P inv.sockets b q)))
