-- ===== src/Tcp/Calls.antt =====
-- The histories of an adapter: its calls, each with the answers of the system calls in it.
use bcnp.Base.{ℕ, Option, List, [], ◌∷◌}
use bcnp.Wire.{Bytes}
use bcnp.Tcp.{TcpPosixAdapter, SendAnswers, Polling, Hearing}
use bcnp.Tcp.Session.{send_bytes, send_handshake, receive_chunk}
use bcnp.Tcp.Invariant.{Invariant}
use bcnp.Tcp.Invariant.Talking.{send_bytes-kept, send_handshake-kept}
use bcnp.Tcp.Invariant.Receiving.{receive_chunk-kept}

pub data Call : Type 0 where
  send : Polling → SendAnswers → Option Bytes → Call
  receive : ℕ → Hearing → Call
  handshake : SendAnswers → Call

abbrev pub step : TcpPosixAdapter → Call → TcpPosixAdapter
step a (send poll answers data_) = (send_bytes poll answers a data_).1
step a (receive max_length io) = (receive_chunk max_length io a).1
step a (handshake answers) = (send_handshake answers a).1

abbrev pub run : TcpPosixAdapter → List Call → TcpPosixAdapter
run a [] = a
run a (c ∷ cs) = run (step a c) cs

module _ (P : TcpPosixAdapter → Type 0) (inv : Invariant P) where
  step-kept : (a : TcpPosixAdapter) (c : Call) → P a → P (step a c)
  step-kept a (send poll answers data_) p = send_bytes-kept P inv.link poll answers a data_ p
  step-kept a (receive max_length io) p = receive_chunk-kept P inv max_length io a p
  step-kept a (handshake answers) p = send_handshake-kept P inv.link answers a p

  -- An invariant holds after every history.
  pub run-kept : (a : TcpPosixAdapter) (cs : List Call) → P a → P (run a cs)
  run-kept a [] p = p
  run-kept a (c ∷ cs) p = run-kept (step a c) cs (step-kept a c p)
