-- ===== src/Tcp/Passing.antt =====
-- What the calls of `ReceiveChunk` return over a history.
use bcnp.Base.{
  ℕ, suc, ◌-◌, ◌≤◌, ◌==◌, ◌≡◌, refl, sym, ap, ◌∙◌, arith, min, Bool, true, false, not, ◌||◌, List,
  [], ◌∷◌, ◌++◌, append-nil, append_assoc, ltb, length, take, drop, Bool-cases, inl, inr,
}
use mathlib.Core.Path.{subst}
use bcnp.Wire.{Bytes}
use bcnp.Handshake.{handshake_size}
use bcnp.Parser.Chunks.{concat}
use bcnp.Tcp.{
  TcpPosixAdapter, Event, opened, closed, queued, took, dropped, lost, heard, SendAnswers,
  RecvAnswers, recv_interrupted, gives, gives_none, nothing_waits, recv_broken, recv_fails, Hearing,
}
use bcnp.Tcp.Ring.{send_piece, drop_pending_tx}
use bcnp.Tcp.Connection.{is_open, poll_connection, try_flush_tx_buffer}
use bcnp.Tcp.Session.{
  target_socket, process_handshake, assemble, get_expected_schema_hash, pass_up, hear, receive_loop,
  receive_chunk,
}
use bcnp.Tcp.Invariant.{LinkInvariant}
use bcnp.Base.Choices.{choose}
use bcnp.Tcp.Invariant.Connecting.{handle_connection_loss-kept}
use bcnp.Tcp.Invariant.Talking.{
  try_flush-kept, poll_connection-kept, send_bytes-kept, send_handshake-kept,
}
use bcnp.Tcp.Invariant.Receiving.{pass_up_complete, pass_up_incomplete}
use bcnp.Tcp.Assembly.{up_bytes}
use bcnp.Tcp.Calls.{Call, step, run}

-- How many connections were lost.
abbrev pub times_lost : List Event → ℕ
times_lost [] = 0
times_lost (lost ∷ es) = suc (times_lost es)
times_lost (opened fd ∷ es) = times_lost es
times_lost (closed fd ∷ es) = times_lost es
times_lost (queued bytes ∷ es) = times_lost es
times_lost (took fd bytes ∷ es) = times_lost es
times_lost (dropped ∷ es) = times_lost es
times_lost (heard got up ∷ es) = times_lost es

-- Where `k` connections were lost and no more, `u` was passed up on the last one.
pub record IsPassed (u : Bytes) (k : ℕ) (a : TcpPosixAdapter) : Type 0 where
  pub at_least : k ≤ times_lost a.log
  pub passed_up : times_lost a.log ≡ k → up_bytes a.log ≡ u

start-IsPassed : (a : TcpPosixAdapter) → IsPassed (up_bytes a.log) (times_lost a.log) a
start-IsPassed a = record { at_least = omega arith; passed_up = λ e. refl }

passes : (u : Bytes) (k : ℕ) → LinkInvariant (IsPassed u k)
unfolding send_piece drop_pending_tx
passes u k = record {
  sockets = record {
    tuned = λ a c d t v p. record { at_least = p.at_least; passed_up = p.passed_up };
    set_up = λ a s v b p. record { at_least = p.at_least; passed_up = p.passed_up };
    opened_base = λ a fd e p. record { at_least = p.at_least; passed_up = p.passed_up };
    closed_base = λ a fd e p. record { at_least = p.at_least; passed_up = p.passed_up };
  };
  opened_client = λ a fd e p. record { at_least = p.at_least; passed_up = p.passed_up };
  closed_client = λ a fd e p. record { at_least = p.at_least; passed_up = p.passed_up };
  refused_client = λ a fd p. record { at_least = p.at_least; passed_up = p.passed_up };
  queued = λ a bytes room p. record { at_least = p.at_least; passed_up = p.passed_up };
  taken = λ a fd n le p. record { at_least = p.at_least; passed_up = p.passed_up };
  dropped = λ a p. record { at_least = p.at_least; passed_up = p.passed_up };
  lost = λ a p. record {
    at_least = omega (arith, p.at_least);
    passed_up = λ e. absurd (omega (arith, e, p.at_least));
  };
  marked = λ a p. record { at_least = p.at_least; passed_up = p.passed_up };
}

-- A `heard` event puts what is passed up behind the rest.
more-IsPassed :
    (u got up : Bytes) (k : ℕ) (a b : TcpPosixAdapter)
    → b.log ≡ heard got up ∷ a.log
    → IsPassed u k a
    → IsPassed (u ++ up) k b
more-IsPassed u got up k a b e p = record {
  at_least = omega (arith, ap times_lost e, p.at_least);
  passed_up = λ f. ap up_bytes e ∙ ap (λ l. l ++ up) (p.passed_up (sym (ap times_lost e) ∙ f));
}

process-IsPassed :
    (u : Bytes) (k : ℕ) (reply : SendAnswers) (data_ : Bytes) (a : TcpPosixAdapter)
    → IsPassed u k a
    → IsPassed u k (process_handshake reply data_ a).1
unfolding process_handshake
process-IsPassed u k reply data_ a p =
    let R : Bool × TcpPosixAdapter → Type 0 = (λ r. IsPassed u k r.1) in
    let b = record a { shake = assemble (get_expected_schema_hash a) data_ a.shake } in
    let q : IsPassed u k b = record { at_least = p.at_least; passed_up = p.passed_up } in
    choose R (ltb b.shake.received handshake_size) (false, b) _ (λ part. q)
      (λ whole.
        choose R (not b.shake.validated) (true, b) _ (λ other. q)
          (λ own.
            choose R (not b.shake.sent) _ (true, b)
              (λ silent. send_handshake-kept (IsPassed u k) (passes u k) reply b q) (λ said. q)))

pass_up-IsPassed :
    (u : Bytes) (k : ℕ) (reply : SendAnswers) (got : Bytes) (a : TcpPosixAdapter)
    → IsPassed u k a
    → let (up, b) = pass_up reply got a in IsPassed (u ++ up) k b
pass_up-IsPassed u k reply got a p =
    let R : Bytes × TcpPosixAdapter → Type 0 = (λ r. IsPassed (u ++ r.0) k r.1) in
    elim (Bool-cases a.shake.complete) [
      | inl done ↦
          subst R (sym (pass_up_complete reply got a done)) (more-IsPassed u got got k a _ refl p)
      | inr open_ ↦
          let n = min (length got) (handshake_size - a.shake.received) in
          subst R (sym (pass_up_incomplete reply got a open_)) (
            process-IsPassed (u ++ drop n got) k reply (take n got) _ (
              more-IsPassed u got (drop n got) k a
                (record a { log = heard got (drop n got) ∷ a.log }) refl p))
    ]

-- Nothing is passed up.
nothing-IsPassed :
    (u : Bytes) (k : ℕ) (a : TcpPosixAdapter) → IsPassed u k a → IsPassed (u ++ []) k a
nothing-IsPassed u k a p = subst (λ v. IsPassed v k a) (sym (append-nil u)) p

receive_loop-IsPassed :
    (u : Bytes) (k n : ℕ) (io : Hearing) (answers : RecvAnswers) (a : TcpPosixAdapter)
    → IsPassed u k a
    → let (up, b) = receive_loop n io answers a in IsPassed (u ++ up) k b
unfolding receive_loop hear
receive_loop-IsPassed u k n io (recv_interrupted rest) a p = receive_loop-IsPassed u k n io rest a p
receive_loop-IsPassed u k n io (gives b bs) a p =
    pass_up-IsPassed u k io.reply (take n (b ∷ bs)) _ (
      choose (IsPassed u k) a.is_server _ a
        (λ server. record { at_least = p.at_least; passed_up = p.passed_up }) (λ client. p))
receive_loop-IsPassed u k n io (gives_none connecting) a p =
    nothing-IsPassed u k _ (handle_connection_loss-kept (IsPassed u k) (passes u k) connecting a p)
receive_loop-IsPassed u k n io nothing_waits a p = nothing-IsPassed u k a p
receive_loop-IsPassed u k n io (recv_broken connecting) a p =
    nothing-IsPassed u k _ (handle_connection_loss-kept (IsPassed u k) (passes u k) connecting a p)
receive_loop-IsPassed u k n io recv_fails a p = nothing-IsPassed u k a p

receive_chunk-IsPassed :
    (u : Bytes) (k n : ℕ) (io : Hearing) (a : TcpPosixAdapter)
    → IsPassed u k a
    → let (up, b) = receive_chunk n io a in IsPassed (u ++ up) k b
unfolding receive_chunk
receive_chunk-IsPassed u k n io a p =
    let P = IsPassed u k in
    let R : Bytes × TcpPosixAdapter → Type 0 = (λ r. IsPassed (u ++ r.0) k r.1) in
    let b = poll_connection io.poll a in
    let q = poll_connection-kept P (passes u k) io.poll a p in
    let c = try_flush_tx_buffer (target_socket b) io.flush b in
    let s = try_flush-kept P (passes u k) (target_socket b) io.flush b q in
    choose R (not (is_open a.socket) || n == 0) ([], a) _ (λ e. nothing-IsPassed u k a p)
      (λ e.
        choose R (not (is_open (target_socket b)) || not b.is_connected) ([], b) _
          (λ mute. nothing-IsPassed u k b q)
          (λ talks. receive_loop-IsPassed u k n io io.recv _ (
            choose P (not c.shake.sent) _ c
              (λ silent. send_handshake-kept P (passes u k) io.handshake c s) (λ said. s))))

-- What the calls of `ReceiveChunk` return, one after the other.
abbrev pub passed : TcpPosixAdapter → List Call → List Bytes
passed a [] = []
passed a (Call.send poll answers data_ ∷ cs) = passed (step a (Call.send poll answers data_)) cs
passed a (Call.receive n io ∷ cs) =
    (receive_chunk n io a).0 ∷ passed (step a (Call.receive n io)) cs
passed a (Call.handshake answers ∷ cs) = passed (step a (Call.handshake answers)) cs

run-IsPassed :
    (u : Bytes) (k : ℕ) (a : TcpPosixAdapter) (cs : List Call)
    → IsPassed u k a
    → IsPassed (u ++ concat (passed a cs)) k (run a cs)
run-IsPassed u k a [] p = nothing-IsPassed u k a p
run-IsPassed u k a (Call.send poll answers data_ ∷ cs) p =
    run-IsPassed u k _ cs (send_bytes-kept (IsPassed u k) (passes u k) poll answers a data_ p)
run-IsPassed u k a (Call.receive n io ∷ cs) p =
    let up = (receive_chunk n io a).0 in
    let b = step a (Call.receive n io) in
    subst (λ v. IsPassed v k (run b cs)) (append_assoc u up (concat (passed b cs)))
      (run-IsPassed (u ++ up) k b cs (receive_chunk-IsPassed u k n io a p))
run-IsPassed u k a (Call.handshake answers ∷ cs) p =
    run-IsPassed u k _ cs (send_handshake-kept (IsPassed u k) (passes u k) answers a p)

-- Over calls in which no connection is lost, what they return is what is logged as passed up.
pub run_passes :
    (a : TcpPosixAdapter) (cs : List Call)
    → times_lost (run a cs).log ≡ times_lost a.log
    → up_bytes (run a cs).log ≡ up_bytes a.log ++ concat (passed a cs)
run_passes a cs none_lost =
    (run-IsPassed (up_bytes a.log) (times_lost a.log) a cs (start-IsPassed a)).passed_up none_lost
