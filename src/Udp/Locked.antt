-- ===== src/Udp/Locked.antt =====
-- Over every history of the calls, a locked adapter deals only with a peer that has sent a handshake.
use bcnp.Base.{
  ℕ, ◌==◌, ◌<◌, ◌≡◌, refl, true, Bool-cases, ◌⊎◌, inl, inr, Option, none, some, List, [], ◌∷◌, ◌++◌,
  lt→ltb, length, take,
}
use bcnp.Wire.{Bytes}
use bcnp.Udp.{
  UdpPosixAdapter, SockAddr, Receiving, Opening, set_target, new_adapter, send_bytes, receive_chunk,
}
use bcnp.Udp.Pairing.{Call, run, heard, Among, IsPaired}
use bcnp.Udp.Kept.{unpaired}
use bcnp.Udp.History.{receive_from_peer, run-IsPaired}

send_to_peer :
    (hs : List SockAddr) (result : Option ℕ) (a : UdpPosixAdapter) (data_ : Bytes)
    → IsPaired hs a
    → a.peer_locked ≡ true
    → ((send_bytes result a (some data_)).1.sent ≡ a.sent)
      ⊎ (Among a.last_peer hs
          × ((send_bytes result a (some data_)).1.sent ≡ a.sent ++ ((a.last_peer, data_) ∷ [])))
unfolding send_bytes
send_to_peer hs result a data_ p locked = elim (Bool-cases (length data_ == 0)) [
  | inl empty ↦ rw empty (inl refl)
  | inr some_bytes ↦ rw some_bytes (elim (Bool-cases a.has_peer) [
    | inr mute ↦ rw mute (inl refl)
    | inl there ↦ elim (Bool-cases a.socket) [
      | inr closed ↦ rw (there, closed) (inl refl)
      | inl opened ↦
          let complete = p.complete locked there in
          rw (there, opened) (inr (rw (p.to_peer complete) (p.heard complete), refl))
    ]
  ])
]

-- An opened adapter with a port and without a target, as the constructor makes it.
pub opened-IsPaired {ℓ} :
    {Text : Type ℓ} (inet_pton : Text → Option ℕ) (io : Opening) (port target_port : ℕ)
    → io.socket_ok ≡ true
    → io.fcntl_ok ≡ true
    → io.bind_ok ≡ true
    → 0 < port
    → IsPaired [] (new_adapter inet_pton io port none target_port)
unfolding new_adapter set_target
opened-IsPaired inet_pton io port target_port s f b pos =
    rw (s, f, b, lt→ltb 0 port pos)
      (unpaired _ (record { require_pairing = refl; not_fixed = refl }) refl (λ e. refl))

module _ {ℓ} {Text : Type ℓ} (inet_pton : Text → Option ℕ) (io : Opening) (port target_port : ℕ)
    (socket_ok : io.socket_ok ≡ true) (fcntl_ok : io.fcntl_ok ≡ true) (bind_ok : io.bind_ok ≡ true)
    (port_pos : 0 < port) (cs : List Call) where
  abbrev reached : UdpPosixAdapter
  reached = run (new_adapter inet_pton io port none target_port) cs

  reached-IsPaired : IsPaired (heard [] cs) reached
  reached-IsPaired =
      run-IsPaired cs [] (new_adapter inet_pton io port none target_port)
        (opened-IsPaired inet_pton io port target_port socket_ok fcntl_ok bind_ok port_pos)

  -- Whatever has happened to an adapter that was opened with a port and without a fixed target: while
  -- it is locked, it passes up of a datagram what the buffer takes, the front, and only if the source
  -- has sent before a datagram of which the buffer took exactly a handshake with the own schema hash.
  pub locked_receives_paired :
      (n : ℕ) (now : Receiving) (data_ : Bytes) (src : SockAddr)
      → reached.peer_locked ≡ true
      → now.datagram ≡ some (data_, src)
      → 0 < length (receive_chunk n now reached).0
      → ((receive_chunk n now reached).0 ≡ take n data_) × Among src (heard [] cs)
  locked_receives_paired n now data_ src locked d some_bytes =
      receive_from_peer n now reached (heard [] cs) data_ src reached-IsPaired locked d some_bytes

  -- Whatever has happened to an adapter that was opened with a port and without a fixed target: while
  -- it is locked, a send either hands nothing to the socket, or hands the bytes to it for a peer that
  -- has sent before a datagram of which the buffer took exactly a handshake with the own schema hash.
  pub locked_sends_paired :
      (result : Option ℕ) (data_ : Bytes)
      → reached.peer_locked ≡ true
      → ((send_bytes result reached (some data_)).1.sent ≡ reached.sent)
        ⊎ (Among reached.last_peer (heard [] cs)
            × ((send_bytes result reached (some data_)).1.sent
                ≡ reached.sent ++ ((reached.last_peer, data_) ∷ [])))
  locked_sends_paired result data_ locked =
      send_to_peer (heard [] cs) result reached data_ reached-IsPaired locked
