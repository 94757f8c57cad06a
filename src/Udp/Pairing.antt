-- ===== src/Udp/Pairing.antt =====
-- An adapter that must be paired: whom it is paired with, over every history of its calls.
use bcnp.Base.{
  ℕ, ◌==◌, ◌≡◌, arith, Bool, true, false, ◌&&◌, ◌⊎◌, Option, none, some, List, [], ◌∷◌,
  if◌then◌else◌, length, take,
}
use bcnp.Wire.{Bytes}
use bcnp.Handshake.{validate_handshake}
use bcnp.Udp.{
  UdpPosixAdapter, SockAddr, Receiving, send_bytes, set_peer_lock_mode, set_pairing_token,
  unlock_peer, send_handshake, process_pairing_packet, receive_chunk,
}

-- A call with the answers of the system calls in it.
pub data Call : Type 0 where
  receive : ℕ → Receiving → Call
  send : Option ℕ → Option Bytes → Call
  handshake : Option ℕ → Call
  token : ℕ → Call
  unlock : Call
  lock_mode : Bool → Call

abbrev pub step : UdpPosixAdapter → Call → UdpPosixAdapter
step a (receive n io) = (receive_chunk n io a).1
step a (send result data_) = (send_bytes result a data_).1
step a (handshake result) = (send_handshake result a).1
step a (token t) = set_pairing_token a t
step a unlock = unlock_peer a
step a (lock_mode locked) = set_peer_lock_mode a locked

abbrev pub run : UdpPosixAdapter → List Call → UdpPosixAdapter
run a [] = a
run a (c ∷ cs) = run (step a c) cs

-- A datagram that is a handshake with the own schema hash, and nothing else.
abbrev pub is_pairing : Bytes → Bool
is_pairing data_ = length data_ == 8 && validate_handshake data_ (length data_)

-- The sources of the handshakes, the last one first. What the buffer does not take of a datagram is
-- not seen.
abbrev pub heard_in : List SockAddr → Call → List SockAddr
heard_in hs (receive n io) = elim io.datagram [
  | none ↦ hs
  | some got ↦ if is_pairing (take n got.0) then got.1 ∷ hs else hs
]
heard_in hs _ = hs

abbrev pub heard : List SockAddr → List Call → List SockAddr
heard hs [] = hs
heard hs (c ∷ cs) = heard (heard_in hs c) cs

abbrev pub Among : SockAddr → List SockAddr → Type 0
Among a [] = ⊥
Among a (b ∷ bs) = (a ≡ b) ⊎ Among a bs

-- The adapter waits for a handshake before it passes data on while it is locked.
pub record IsGuarded (a : UdpPosixAdapter) : Type 0 where
  pub require_pairing : a.require_pairing ≡ true
  pub not_fixed : a.fixed_peer_configured ≡ false

-- Whoever it is paired with has sent a handshake, and is the one that it sends to.
pub record IsPaired (hs : List SockAddr) (a : UdpPosixAdapter) : Type 0 where
  pub guarded : IsGuarded a
  pub has_peer : a.pairing_complete ≡ true → a.has_peer ≡ true
  pub heard : a.pairing_complete ≡ true → Among a.initial_peer hs
  pub to_peer : a.pairing_complete ≡ true → a.last_peer ≡ a.initial_peer
  pub locked : a.pairing_complete ≡ true → a.peer_locked ≡ true
  pub complete : a.peer_locked ≡ true → a.has_peer ≡ true → a.pairing_complete ≡ true

-- A pairing packet is taken exactly if it is a handshake with the own schema hash.
pub process_pairing_packet_lem :
    (result : Option ℕ) (data_ : Bytes) (src : SockAddr) (a : UdpPosixAdapter)
    → (process_pairing_packet result data_ src a).0 ≡ is_pairing data_
unfolding process_pairing_packet validate_handshake
process_pairing_packet_lem result data_ src a = ground arith
