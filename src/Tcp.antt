-- ===== src/Tcp.antt =====
-- `TcpPosixAdapter` of transport/tcp_posix.h and tcp_posix.cpp: its state, and the answers of the
-- system calls, which are arguments of the operations that make them. A descriptor is a number, `none`
-- is -1. A time is the number of nanoseconds since the epoch of the clock, which is 0. `log` is not
-- part of the program: it lists what crosses the border of the adapter, the newest event first. The
-- messages to stderr and their throttle are left out.
pub mod Ring
pub mod Connection
pub mod Session
pub mod Invariant
pub mod Calls
pub mod Stream
pub mod Assembly
pub mod Peer
pub mod Flush
pub mod Delivery
pub mod Loss
pub mod Zombie
pub mod Reconnect
pub mod Send
pub mod Passing
pub mod Packets
pub mod Descriptors
use bcnp.Base.{ℕ, ◌*◌, Bool, false, Option, none, List, []}
use bcnp.Wire.{Bytes}
use bcnp.Queue.{Time}
use bcnp.Udp.{SockAddr}

abbrev pub max_packet_size : ℕ
max_packet_size = 65536

abbrev pub tx_buffer_capacity : ℕ
tx_buffer_capacity = max_packet_size * 8

-- kReconnectInterval, in milliseconds
abbrev pub reconnect_interval : ℕ
reconnect_interval = 500

-- m_serverClientTimeout, in milliseconds
abbrev pub server_client_timeout : ℕ
server_client_timeout = 5000

-- The members m_txBuffer, m_txHead, m_txTail and m_txSize. The capacity is the length of the buffer.
pub record TxRing : Type 0 where
  pub buffer : Bytes
  pub head : ℕ
  pub tail : ℕ
  pub size : ℕ

-- The members of the handshake: m_handshakeComplete, m_handshakeSent, m_schemaValidated,
-- m_remoteSchemaHash, m_handshakeBuffer and m_handshakeReceived.
pub record Shake : Type 0 where
  pub complete : Bool
  pub sent : Bool
  pub validated : Bool
  pub remote_schema_hash : ℕ
  pub bytes : Bytes
  pub received : ℕ

-- `opened` and `closed` are about a descriptor, `queued` is what goes into the ring, `took` what `send`
-- takes, `dropped` a `DropPendingTx`, `lost` a `HandleConnectionLoss`, and `heard` what `recv` gives
-- with the part of it that is passed up.
pub data Event : Type 0 where
  opened closed : ℕ → Event
  queued : Bytes → Event
  took : ℕ → Bytes → Event
  dropped lost : Event
  heard : Bytes → Bytes → Event

pub record TcpPosixAdapter : Type 0 where
  pub socket : Option ℕ
  pub client_socket : Option ℕ
  pub is_server : Bool
  pub is_connected : Bool
  pub connect_in_progress : Bool
  pub expected_schema_hash : ℕ
  pub peer_addr : SockAddr
  pub peer_addr_valid : Bool
  pub next_reconnect_attempt : Time
  pub last_server_rx : Time
  pub shake : Shake
  pub tx : TxRing
  pub log : List Event

-- `connect`: 0, EINPROGRESS or EALREADY, or another error.
pub data ConnectAnswer : Type 0 where
  connected in_progress refused : ConnectAnswer

-- The clock, `socket`, the two calls of `ConfigureSocket`, and `connect`.
pub record Connecting : Type 0 where
  pub now : Time
  pub socket : Option ℕ
  pub nodelay_ok : Bool
  pub nonblock_ok : Bool
  pub connect : ConnectAnswer

-- The answers of `send` in one flush, up to one that ends the loop. `takes n` takes what is offered,
-- at most `n + 1` bytes; the others are a 0, EINTR, EAGAIN or EWOULDBLOCK, one of EPIPE, ECONNRESET and
-- ENOTCONN, and another error.
pub data SendAnswers : Type 0 where
  takes : ℕ → SendAnswers → SendAnswers
  takes_none : Connecting → SendAnswers
  interrupted : SendAnswers → SendAnswers
  would_block : SendAnswers
  broken : Connecting → SendAnswers
  fails : SendAnswers

-- `accept`: a descriptor with the answers of `ConfigureSocket` and the clock, or an error.
pub data AcceptAnswer : Type 0 where
  accepted : ℕ → Bool → Bool → Time → AcceptAnswer
  not_accepted : AcceptAnswer

-- `getsockopt(SO_ERROR)`: it fails, or gives 0, EINPROGRESS or EALREADY, or another error.
pub data SoError : Type 0 where
  unreadable no_error still_connecting connect_error : SoError

pub record Polling : Type 0 where
  pub now : Time
  pub accept : AcceptAnswer
  pub so_error : SoError
  pub flush : SendAnswers
  pub connecting : Connecting

-- The answers of `recv` up to one that is not EINTR: `gives b bs` is what waits, of which `recv` takes at
-- most `maxLength` bytes; the others are a 0, EAGAIN or EWOULDBLOCK, one of ENOTCONN and ECONNRESET, and
-- another error.
pub data RecvAnswers : Type 0 where
  recv_interrupted : RecvAnswers → RecvAnswers
  gives : ℕ → Bytes → RecvAnswers
  gives_none : Connecting → RecvAnswers
  nothing_waits : RecvAnswers
  recv_broken : Connecting → RecvAnswers
  recv_fails : RecvAnswers

-- What one `ReceiveChunk` asks, in its order; the clock is read behind `recv`.
pub record Hearing : Type 0 where
  pub poll : Polling
  pub flush : SendAnswers
  pub handshake : SendAnswers
  pub recv : RecvAnswers
  pub now : Time
  pub reply : SendAnswers
