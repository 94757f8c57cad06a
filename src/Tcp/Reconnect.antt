-- ===== src/Tcp/Reconnect.antt =====
-- Which calls of a client whose socket is closed connect it again.
use bcnp.Base.{
  ℕ, ◌≤◌, ◌<◌, ◌==◌, ◌≡◌, refl, ap, ap₂, ◌∙◌, arith, true, false, not, ◌&&◌, ◌||◌, ltb, lt→ltb,
  le→ltb, none, some, List, [], ◌∷◌, if◌then◌else◌,
}
use bcnp.Wire.{Bytes}
use bcnp.Tcp.{
  TcpPosixAdapter, Polling, SoError, unreadable, no_error, still_connecting, connect_error, Hearing,
  closed,
}
use bcnp.Tcp.Connection.{
  is_open, close_socket, try_connect, begin_client_connect, poll_client, poll_connection,
  try_flush_tx_buffer,
}
use bcnp.Tcp.Session.{target_socket, send_handshake, receive_loop, receive_chunk}
use bcnp.Base.Choices.{pick_true, pick_false, pick_some}
use bcnp.Tcp.Calls.{Call, receive, run}

-- Calls of `ReceiveChunk` only, with any answers of the system calls.
abbrev pub receives : List (ℕ × Hearing) → List Call
receives [] = []
receives (c ∷ cs) = receive c.0 c.1 ∷ receives cs

receive_chunk-closed :
    (n : ℕ) (io : Hearing) (a : TcpPosixAdapter) → a.socket ≡ none → receive_chunk n io a ≡ ([], a)
unfolding receive_chunk
receive_chunk-closed n io a closed_ = pick_true _ _ (ap (λ o. not (is_open o) || n == 0) closed_)

run-closed :
    (cs : List (ℕ × Hearing)) (a : TcpPosixAdapter) → a.socket ≡ none → run a (receives cs) ≡ a
run-closed [] a closed_ = refl
run-closed (c ∷ cs) a closed_ =
    ap (λ (r : Bytes × TcpPosixAdapter). run r.1 (receives cs))
      (receive_chunk-closed c.0 c.1 a closed_)
    ∙ run-closed cs a closed_

module _ (a : TcpPosixAdapter) (fd : ℕ) (client : a.is_server ≡ false)
    (target : a.peer_addr_valid ≡ true) (there : a.socket ≡ some fd) (down : a.is_connected ≡ false)
    (trying : a.connect_in_progress ≡ true) where
  -- The adapter with its socket closed.
  abbrev given_up : TcpPosixAdapter
  given_up = record a { socket = none; connect_in_progress = false; log = closed fd ∷ a.log }

  close_socket-given_up : record (close_socket a) { connect_in_progress = false } ≡ given_up
  unfolding close_socket
  close_socket-given_up =
      ap (λ (b : TcpPosixAdapter). record b { connect_in_progress = false })
        (pick_some a (λ g. record a { socket = none; log = closed g ∷ a.log }) fd there)

  poll-given_up :
      (io : Polling)
      → io.so_error ≡ connect_error
      → io.connecting.now < a.next_reconnect_attempt
      → poll_connection io a ≡ given_up
  unfolding poll_connection poll_client begin_client_connect
  poll-given_up io failed early =
      pick_false _ _ client
      ∙ pick_some _ _ fd there
      ∙ pick_true {b = not a.is_connected && a.connect_in_progress} _ _
          (ground (arith, down, trying))
      ∙ ap answered failed
      ∙ ap (begin_client_connect false io.connecting) close_socket-given_up
      ∙ pick_false {b = a.is_server || not a.peer_addr_valid} _ _ (ground (arith, client, target))
      ∙ pick_true {b = not false && ltb io.connecting.now a.next_reconnect_attempt} _ _
          (lt→ltb io.connecting.now a.next_reconnect_attempt early)
    where
      answered : SoError → TcpPosixAdapter
      answered o = elim o [
        | unreadable ↦ a
        | no_error ↦
            try_flush_tx_buffer (some fd) io.flush
              (record a { is_connected = true; connect_in_progress = false })
        | still_connecting ↦ a
        | connect_error ↦
            begin_client_connect false io.connecting
              (record (close_socket a) { connect_in_progress = false })
      ]

  receive-given_up :
      (n : ℕ) (io : Hearing)
      → 0 < n
      → io.poll.so_error ≡ connect_error
      → io.poll.connecting.now < a.next_reconnect_attempt
      → receive_chunk n io a ≡ ([], given_up)
  unfolding receive_chunk
  receive-given_up n io some_room failed early =
      pick_false {b = not (is_open a.socket) || n == 0} _ _
        (ap₂ (λ o z. not (is_open o) || z) there (ground arith))
      ∙ ap rest (poll-given_up io.poll failed early)
      ∙ pick_true _ _ (ap (λ o. not (is_open o) || not a.is_connected) (pick_false _ _ client))
    where
      rest : TcpPosixAdapter → Bytes × TcpPosixAdapter
      rest b =
          let c = try_flush_tx_buffer (target_socket b) io.flush b in
          let d = if not c.shake.sent then (send_handshake io.handshake c).1 else c in
          if not (is_open (target_socket b)) || not b.is_connected
          then ([], b)
          else receive_loop n io io.recv d

  -- If a call of `ReceiveChunk` finds that the attempt of a client to connect has failed, before the
  -- time of the next attempt, it closes the socket; the adapter then stays as it is through any number
  -- of calls of `ReceiveChunk`, however much time passes, although a poll from that time on tries to
  -- connect.
  pub receives_stay_closed :
      (n : ℕ) (io : Hearing) (cs : List (ℕ × Hearing)) (later : Polling)
      → 0 < n
      → io.poll.so_error ≡ connect_error
      → io.poll.connecting.now < a.next_reconnect_attempt
      → a.next_reconnect_attempt ≤ later.connecting.now
      → let (up, b) = receive_chunk n io a in
        (up ≡ [])
        × (b ≡ record a { socket = none; connect_in_progress = false; log = closed fd ∷ a.log })
        × (run b (receives cs) ≡ b)
        × (poll_connection later (run b (receives cs)) ≡ try_connect later.connecting b)
  unfolding poll_connection poll_client begin_client_connect
  receives_stay_closed n io cs later some_room failed early late =
      let e = receive-given_up n io some_room failed early in
      let stays = run-closed cs given_up refl in
      (
        ap (λ r. r.0) e,
        ap (λ r. r.1) e,
        rw e stays,
        rw e (
            ap (poll_connection later) stays
            ∙ pick_false _ _ client
            ∙ pick_false {b = a.is_server || not a.peer_addr_valid} _ _
                (ground (arith, client, target))
            ∙ pick_false {b = not false && ltb later.connecting.now a.next_reconnect_attempt} _ _
                (le→ltb later.connecting.now a.next_reconnect_attempt late)),
      )
