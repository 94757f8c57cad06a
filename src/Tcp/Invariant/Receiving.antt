-- ===== src/Tcp/Invariant/Receiving.antt =====
-- An invariant survives `ProcessHandshake` and `ReceiveChunk`.
use bcnp.Base.{
  ℕ, ◌-◌, ◌==◌, ◌≡◌, refl, Bool-cases, inl, inr, sym, Bool, true, false, not, ◌||◌, [], ◌∷◌, ltb,
  min, length, take, drop, if◌then◌else◌,
}
use mathlib.Core.Path.{subst}
use bcnp.Wire.{Bytes}
use bcnp.Handshake.{handshake_size}
use bcnp.Tcp.{
  TcpPosixAdapter, heard, SendAnswers, RecvAnswers, recv_interrupted, gives, gives_none,
  nothing_waits, recv_broken, recv_fails, Hearing,
}
use bcnp.Tcp.Connection.{try_flush_tx_buffer, poll_connection, is_open}
use bcnp.Tcp.Session.{
  target_socket, assemble, process_handshake, pass_up, hear, receive_loop, receive_chunk,
  get_expected_schema_hash,
}
use bcnp.Tcp.Invariant.{Invariant}
use bcnp.Base.Choices.{choose}
use bcnp.Tcp.Invariant.Connecting.{handle_connection_loss-kept}
use bcnp.Tcp.Invariant.Talking.{try_flush-kept, poll_connection-kept, send_handshake-kept}

module _ (reply : SendAnswers) (got : Bytes) (a : TcpPosixAdapter) where
  pub pass_up_complete :
      a.shake.complete ≡ true
      → pass_up reply got a ≡ (got, record a { log = heard got got ∷ a.log })
  unfolding pass_up
  pass_up_complete e = rw e refl

  pub pass_up_incomplete :
      a.shake.complete ≡ false
      → let consumed = min (length got) (handshake_size - a.shake.received) in
        pass_up reply got a ≡ (
          drop consumed got,
          (process_handshake reply
              (take consumed got)
              (record a { log = heard got (drop consumed got) ∷ a.log })).1,
        )
  unfolding pass_up
  pass_up_incomplete e = rw e refl

module _ (P : TcpPosixAdapter → Type 0) (inv : Invariant P) where
  process_handshake-kept :
      (reply : SendAnswers) (data_ : Bytes) (a : TcpPosixAdapter)
      → P (record a { shake = assemble (get_expected_schema_hash a) data_ a.shake })
      → P (process_handshake reply data_ a).1
  unfolding process_handshake
  process_handshake-kept reply data_ a p =
      let R : Bool × TcpPosixAdapter → Type 0 = (λ r. P r.1) in
      let b = record a { shake = assemble (get_expected_schema_hash a) data_ a.shake } in
      choose R (ltb b.shake.received handshake_size) (false, b) _ (λ part. p)
        (λ whole.
          choose R (not b.shake.validated) (true, b) _ (λ other. p)
            (λ own.
              choose R (not b.shake.sent) _ (true, b)
                (λ silent. send_handshake-kept P inv.link reply b p) (λ said. p)))

  timed-kept :
      (io : Hearing) (a : TcpPosixAdapter)
      → P a
      → P (if a.is_server then record a { last_server_rx = io.now } else a)
  timed-kept io a p =
      choose P a.is_server _ a (λ server. inv.link.tuned a _ _ _ io.now p) (λ client. p)

  pass_up-kept :
      (reply : SendAnswers) (got : Bytes) (a : TcpPosixAdapter) → P a → P (pass_up reply got a).1
  unfolding get_expected_schema_hash
  pass_up-kept reply got a p =
      let R : Bytes × TcpPosixAdapter → Type 0 = (λ r. P r.1) in
      elim (Bool-cases a.shake.complete) [
        | inl done ↦ subst R (sym (pass_up_complete reply got a done)) (inv.heard_data a got done p)
        | inr open_ ↦
            subst R (sym (pass_up_incomplete reply got a open_))
              (process_handshake-kept reply _ _ (inv.heard_handshake a got open_ p))
      ]

  receive_loop-kept :
      (max_length : ℕ) (io : Hearing) (answers : RecvAnswers) (a : TcpPosixAdapter)
      → P a
      → P (receive_loop max_length io answers a).1
  unfolding receive_loop hear
  receive_loop-kept n io (recv_interrupted rest) a p = receive_loop-kept n io rest a p
  receive_loop-kept n io (gives b bs) a p =
      pass_up-kept io.reply (take n (b ∷ bs)) _ (timed-kept io a p)
  receive_loop-kept n io (gives_none connecting) a p =
      handle_connection_loss-kept P inv.link connecting a p
  receive_loop-kept n io nothing_waits a p = p
  receive_loop-kept n io (recv_broken connecting) a p =
      handle_connection_loss-kept P inv.link connecting a p
  receive_loop-kept n io recv_fails a p = p

  pub receive_chunk-kept :
      (max_length : ℕ) (io : Hearing) (a : TcpPosixAdapter)
      → P a
      → P (receive_chunk max_length io a).1
  unfolding receive_chunk
  receive_chunk-kept n io a p =
      let R : Bytes × TcpPosixAdapter → Type 0 = (λ r. P r.1) in
      let b = poll_connection io.poll a in
      let q = poll_connection-kept P inv.link io.poll a p in
      let c = try_flush_tx_buffer (target_socket b) io.flush b in
      let s = try_flush-kept P inv.link (target_socket b) io.flush b q in
      choose R (not (is_open a.socket) || n == 0) ([], a) _ (λ e. p)
        (λ e.
          choose R (not (is_open (target_socket b)) || not b.is_connected) ([], b) _ (λ mute. q)
            (λ talks. receive_loop-kept n io io.recv _ (
              choose P (not c.shake.sent) _ c
                (λ silent. send_handshake-kept P inv.link io.handshake c s) (λ said. s))))
