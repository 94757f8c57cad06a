-- ===== src/Tcp/Invariant.antt =====
-- What a property of the adapter must survive to be an invariant: the few ways in which the adapter
-- changes. Every operation is made of these, so an invariant is proved on them alone.
pub mod Connecting
pub mod Talking
pub mod Receiving
pub mod Starting
use bcnp.Base.{
  ℕ, ◌-◌, ◌≤◌, ◌<◌, ◌≡◌, min, Bool, true, false, Option, none, some, ◌∷◌, length, take, drop,
}
use bcnp.Wire.{Bytes}
use bcnp.Queue.{Time}
use bcnp.Handshake.{handshake_size}
use bcnp.Udp.{SockAddr}
use bcnp.Tcp.{TcpPosixAdapter, opened, closed, queued, lost, heard}
use bcnp.Tcp.Ring.{takes_bytes, write_ring, contiguous, send_piece, drop_pending_tx}
use bcnp.Tcp.Connection.{forget_shake}
use bcnp.Tcp.Session.{assemble, get_expected_schema_hash}

-- The socket that listens or connects, the flags of the connection and the clocks.
pub record SocketInvariant (P : TcpPosixAdapter → Type 0) : Type 0 where
  pub tuned :
      (a : TcpPosixAdapter) (connected connecting : Bool) (next rx : Time)
      → P a
      → P (record a {
        is_connected = connected;
        connect_in_progress = connecting;
        next_reconnect_attempt = next;
        last_server_rx = rx;
      })
  pub set_up :
      (a : TcpPosixAdapter) (server valid : Bool) (peer : SockAddr)
      → P a
      → P (record a { is_server = server; peer_addr = peer; peer_addr_valid = valid })
  pub opened_base :
      (a : TcpPosixAdapter) (fd : ℕ)
      → a.socket ≡ none
      → P a
      → P (record a { socket = some fd; log = opened fd ∷ a.log })
  pub closed_base :
      (a : TcpPosixAdapter) (fd : ℕ)
      → a.socket ≡ some fd
      → P a
      → P (record a { socket = none; log = closed fd ∷ a.log })

-- All but the bytes that are received.
pub record LinkInvariant (P : TcpPosixAdapter → Type 0) : Type 0 where
  pub sockets : SocketInvariant P
  pub open sockets use *
  pub opened_client :
      (a : TcpPosixAdapter) (fd : ℕ)
      → a.client_socket ≡ none
      → P a
      → P (record a { client_socket = some fd; log = opened fd ∷ a.log })
  pub closed_client :
      (a : TcpPosixAdapter) (fd : ℕ)
      → a.client_socket ≡ some fd
      → P a
      → P (record a { client_socket = none; log = closed fd ∷ a.log })
  pub refused_client :
      (a : TcpPosixAdapter) (fd : ℕ) → P a → P (record a { log = closed fd ∷ opened fd ∷ a.log })
  pub queued :
      (a : TcpPosixAdapter) (bytes : Bytes)
      → takes_bytes a.tx (length bytes) ≡ true
      → P a
      → P (record a { tx = write_ring bytes a.tx; log = queued bytes ∷ a.log })
  pub taken : (a : TcpPosixAdapter) (fd n : ℕ) → n ≤ contiguous a.tx → P a → P (send_piece fd n a)
  pub dropped : (a : TcpPosixAdapter) → P a → P (drop_pending_tx a)
  pub lost :
      (a : TcpPosixAdapter)
      → P a
      → P (record a { shake = forget_shake a.shake; log = lost ∷ a.log })
  pub marked : (a : TcpPosixAdapter) → P a → P (record a { shake = record a.shake { sent = true } })

pub record Invariant (P : TcpPosixAdapter → Type 0) : Type 0 where
  pub link : LinkInvariant P
  pub heard_data :
      (a : TcpPosixAdapter) (got : Bytes)
      → a.shake.complete ≡ true
      → P a
      → P (record a { log = heard got got ∷ a.log })
  pub heard_handshake :
      (a : TcpPosixAdapter) (got : Bytes)
      → a.shake.complete ≡ false
      → P a
      → P (record a {
        shake =
            assemble
              (get_expected_schema_hash a)
              (take (min (length got) (handshake_size - a.shake.received)) got)
              a.shake;
        log = heard got (drop (min (length got) (handshake_size - a.shake.received)) got) ∷ a.log;
      })
