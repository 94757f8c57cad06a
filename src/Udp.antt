-- ===== src/Udp.antt =====
-- `UdpPosixAdapter` of transport/udp_posix.h and udp_posix.cpp. What a system call answers is an
-- argument of the operation that makes it; a datagram handed to `sendto` is an entry of `sent`. Ports
-- and addresses are in the byte order of the host, and a time is the number of nanoseconds since the
-- epoch of the clock, which is 0. The messages to stderr are left out, and so is the destructor, which
-- closes the socket.
pub mod Pairing
pub mod Kept
pub mod Peer
pub mod History
pub mod Locked
pub mod Timeout
pub mod Token
use bcnp.Base.{
  ℕ, zero, suc, ◌+◌, ◌==◌, ◌/=◌, Bool, true, false, not, ◌&&◌, ◌||◌, Option, none, some, List, [],
  ◌∷◌, ◌++◌, ltb, if◌then◌else◌, length, take, drop, replicate,
}
use bcnp.Wire.{Bytes, load_u32}
use bcnp.Handshake.{handshake_size, handshake_magic, schema_hash, bytes_equal, encode_handshake}
use bcnp.Queue.{Time, milliseconds}

-- `sockaddr_in`
pub record SockAddr : Type 0 where
  pub addr : ℕ
  pub port : ℕ

abbrev pub no_addr : SockAddr
no_addr = record { addr = 0; port = 0 }

abbrev pub peer_timeout : ℕ
peer_timeout = 5000

pub record UdpPosixAdapter : Type 0 where
  pub socket : Bool
  pub bind : SockAddr
  pub last_peer : SockAddr
  pub has_peer : Bool
  pub peer_locked : Bool
  pub pairing_complete : Bool
  pub schema_validated : Bool
  pub require_pairing : Bool
  pub fixed_peer_configured : Bool
  pub pairing_token : ℕ
  pub remote_schema_hash : ℕ
  pub initial_peer : SockAddr
  pub last_peer_rx : Time
  pub sent : List (SockAddr × Bytes)

-- The members before the constructor's body.
abbrev pub blank : UdpPosixAdapter
blank = record {
  socket = false;
  bind = no_addr;
  last_peer = no_addr;
  has_peer = false;
  peer_locked = false;
  pairing_complete = false;
  schema_validated = false;
  require_pairing = false;
  fixed_peer_configured = false;
  pairing_token = 0x42434E50;
  remote_schema_hash = 0;
  initial_peer = no_addr;
  last_peer_rx = 0;
  sent = [];
}

-- Whether `socket`, `fcntl` and `bind` succeed.
pub record Opening : Type 0 where
  pub socket_ok : Bool
  pub fcntl_ok : Bool
  pub bind_ok : Bool

-- `inet_pton` reads an address from its text; `none` is a null pointer.
unfoldable pub set_target {ℓ} :
    {Text : Type ℓ} → (Text → Option ℕ) → Option Text → ℕ → UdpPosixAdapter → UdpPosixAdapter
set_target inet_pton none target_port a = a
set_target inet_pton (some text) target_port a =
    if target_port == 0 then a else elim (inet_pton text) [
      | none ↦ record a { last_peer = record { addr = 0; port = target_port } }
      | some ip ↦
          let target : SockAddr = record { addr = ip; port = target_port } in
          record a {
            last_peer = target;
            has_peer = true;
            peer_locked = true;
            initial_peer = target;
            pairing_complete = true;
            fixed_peer_configured = true;
          }
    ]

unfoldable pub new_adapter {ℓ} :
    {Text : Type ℓ} → (Text → Option ℕ) → Opening → ℕ → Option Text → ℕ → UdpPosixAdapter
new_adapter inet_pton io listen_port target_ip target_port =
    let bound = record blank { bind = record { addr = 0; port = listen_port } } in
    if not io.socket_ok
    then blank
    else if not io.fcntl_ok
    then blank
    else if not io.bind_ok
    then bound
    else set_target inet_pton target_ip target_port
        (record bound { socket = true; require_pairing = ltb 0 listen_port })

-- `result` is what `sendto` returns, `none` where it is negative.
unfoldable pub send_bytes : Option ℕ → UdpPosixAdapter → Option Bytes → Bool × UdpPosixAdapter
send_bytes result a none = (true, a)
send_bytes result a (some data_) =
    if length data_ == 0
    then (true, a)
    else if not a.has_peer || not a.socket
    then (false, a)
    else (
      elim result [ none ↦ false | some n ↦ n == length data_ ],
      record a { sent = a.sent ++ ((a.last_peer, data_) ∷ []) },
    )

unfoldable pub set_peer_lock_mode : UdpPosixAdapter → Bool → UdpPosixAdapter
set_peer_lock_mode a locked =
    let set = record a { peer_locked = locked } in
    if not locked
    then record set { pairing_complete = false }
    else if a.fixed_peer_configured && a.has_peer
    then record set { initial_peer = a.last_peer; pairing_complete = true }
    else if a.require_pairing
    then record set { pairing_complete = false; has_peer = false }
    else set

unfoldable pub set_pairing_token : UdpPosixAdapter → ℕ → UdpPosixAdapter
set_pairing_token a token =
    let set = record a { pairing_token = token } in
    if a.peer_locked && a.require_pairing && not a.fixed_peer_configured
    then record set { pairing_complete = false; has_peer = false }
    else set

unfoldable pub unlock_peer : UdpPosixAdapter → UdpPosixAdapter
unlock_peer a =
    if not a.fixed_peer_configured
    then record a { pairing_complete = false; has_peer = false }
    else a

unfoldable pub is_handshake_complete : UdpPosixAdapter → Bool
is_handshake_complete a = a.pairing_complete && a.schema_validated

unfoldable pub send_handshake : Option ℕ → UdpPosixAdapter → Bool × UdpPosixAdapter
send_handshake result a =
    if not a.has_peer || not a.socket
    then (false, a)
    else elim (encode_handshake (replicate handshake_size 0) handshake_size) [
      | none ↦ (false, a)
      | some handshake ↦ (
        elim result [ none ↦ false | some n ↦ n == handshake_size ],
        record a { sent = a.sent ++ ((a.last_peer, handshake) ∷ []) },
      )
    ]

unfoldable pub process_pairing_packet :
    Option ℕ → Bytes → SockAddr → UdpPosixAdapter → Bool × UdpPosixAdapter
process_pairing_packet result data_ src a =
    let remote = load_u32 data_ 4 in
    let heard = record a { remote_schema_hash = remote } in
    let paired = record heard {
      initial_peer = src;
      last_peer = src;
      has_peer = true;
      pairing_complete = true;
      schema_validated = true;
    } in
    if length data_ /= handshake_size
    then (false, a)
    else if not (bytes_equal (take 4 data_) handshake_magic)
    then (false, a)
    else if remote /= schema_hash
    then (false, record heard { schema_validated = false })
    else (true, (send_handshake result paired).1)

-- The datagram that waits for `recvfrom`, `none` where that is negative, the time before, and the answer of `sendto` to
-- the handshake.
pub record Receiving : Type 0 where
  pub now : Time
  pub datagram : Option (Bytes × SockAddr)
  pub handshake_sent : Option ℕ

abbrev pub same_peer : SockAddr → SockAddr → Bool
same_peer a b = a.addr == b.addr && a.port == b.port

-- The part of `ReceiveChunk` behind `recvfrom`.
unfoldable pub accept : Receiving → Bytes → SockAddr → UdpPosixAdapter → Bytes × UdpPosixAdapter
accept io data_ src a =
    let (paired, b) = process_pairing_packet io.handshake_sent data_ src a in
    let first = if not a.has_peer then record a { initial_peer = src; has_peer = true } else a in
    if a.peer_locked
    then if a.require_pairing && not a.pairing_complete && not a.fixed_peer_configured
      then ([], (if paired then record b { last_peer_rx = io.now } else b))
      else if a.has_peer && not (same_peer src a.initial_peer)
      then ([], a)
      else (data_, record first { last_peer = src; last_peer_rx = io.now })
    else (data_, record a { last_peer = src; has_peer = true; last_peer_rx = io.now })

abbrev pub is_expired : UdpPosixAdapter → Time → Bool
is_expired a now =
    a.peer_locked
    && a.has_peer
    && not a.fixed_peer_configured
    && a.last_peer_rx /= 0
    && ltb (a.last_peer_rx + milliseconds peer_timeout) now

-- The bytes that are passed up; the buffer is there. `recvfrom` cuts a datagram at `max_length`.
unfoldable pub receive_chunk : ℕ → Receiving → UdpPosixAdapter → Bytes × UdpPosixAdapter
receive_chunk max_length io a =
    let current = if is_expired a io.now then unlock_peer a else a in
    if not a.socket || max_length == 0 then ([], a) else elim io.datagram [
      | none ↦ ([], current)
      | some got ↦ accept io (take max_length got.0) got.1 current
    ]
