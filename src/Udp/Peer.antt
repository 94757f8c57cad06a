-- ===== src/Udp/Peer.antt =====
-- What becomes of a datagram.
use bcnp.Base.{◌≡◌, refl, sym, arith, true, false, Bool-cases, inl, inr, List, [], if◌then◌else◌}
use mathlib.Core.Path.{subst}
use bcnp.Wire.{Bytes}
use bcnp.Udp.{UdpPosixAdapter, SockAddr, Receiving, process_pairing_packet, accept, same_peer}
use bcnp.Udp.Pairing.{IsGuarded, IsPaired}

same_peer-eq : (a b : SockAddr) → same_peer a b ≡ true → a ≡ b
same_peer-eq a b e = (λ i. record { addr = addr_is i; port = port_is i })
  where
    addr_is : a.addr ≡ b.addr
    addr_is = ground arith

    port_is : a.port ≡ b.port
    port_is = ground arith

-- The four ways of a datagram through an adapter that must be paired.
pub data Outcome (io : Receiving) (data_ : Bytes) (src : SockAddr) (a : UdpPosixAdapter)
    : Bytes × UdpPosixAdapter → Type 0 where
  free :
      a.peer_locked ≡ false
      → Outcome io data_ src a
          (data_, record a { last_peer = src; has_peer = true; last_peer_rx = io.now })
  waiting :
      a.peer_locked ≡ true
      → a.pairing_complete ≡ false
      → Outcome io data_ src a (
        [],
        (if (process_pairing_packet io.handshake_sent data_ src a).0
            then record (process_pairing_packet io.handshake_sent data_ src a).1 {
              last_peer_rx = io.now;
            }
            else (process_pairing_packet io.handshake_sent data_ src a).1),
      )
  foreign :
      a.peer_locked ≡ true
      → a.pairing_complete ≡ true
      → same_peer src a.initial_peer ≡ false
      → Outcome io data_ src a ([], a)
  peer :
      a.peer_locked ≡ true
      → a.pairing_complete ≡ true
      → src ≡ a.initial_peer
      → Outcome io data_ src a (data_, record a { last_peer = src; last_peer_rx = io.now })

module _ (io : Receiving) (data_ : Bytes) (src : SockAddr) (a : UdpPosixAdapter) where
  accept_free :
      a.peer_locked ≡ false
      → accept io data_ src a
        ≡ (data_, record a { last_peer = src; has_peer = true; last_peer_rx = io.now })
  unfolding accept
  accept_free loose = rw loose refl

  pub accept_waiting :
      IsGuarded a
      → a.peer_locked ≡ true
      → a.pairing_complete ≡ false
      → accept io data_ src a ≡ (
        [],
        (if (process_pairing_packet io.handshake_sent data_ src a).0
            then record (process_pairing_packet io.handshake_sent data_ src a).1 {
              last_peer_rx = io.now;
            }
            else (process_pairing_packet io.handshake_sent data_ src a).1),
      )
  unfolding accept
  accept_waiting g locked fresh = rw (locked, fresh, g.require_pairing, g.not_fixed) refl

  pub accept_foreign :
      a.peer_locked ≡ true
      → a.pairing_complete ≡ true
      → a.has_peer ≡ true
      → same_peer src a.initial_peer ≡ false
      → accept io data_ src a ≡ ([], a)
  unfolding accept
  accept_foreign locked complete there other =
      rw (locked, there, other)
        (elim (Bool-cases a.require_pairing) [
          | inl needed ↦ rw (needed, complete) refl
          | inr free_ ↦ rw free_ refl
        ])

  accept_peer :
      a.peer_locked ≡ true
      → a.pairing_complete ≡ true
      → a.has_peer ≡ true
      → same_peer src a.initial_peer ≡ true
      → accept io data_ src a ≡ (data_, record a { last_peer = src; last_peer_rx = io.now })
  unfolding accept
  accept_peer locked complete there same =
      rw (locked, there, same)
        (elim (Bool-cases a.require_pairing) [
          | inl needed ↦ rw (needed, complete) refl
          | inr free_ ↦ rw free_ refl
        ])

  pub accept-Outcome :
      (hs : List SockAddr) → IsPaired hs a → Outcome io data_ src a (accept io data_ src a)
  accept-Outcome hs p = elim (Bool-cases a.peer_locked) [
    | inl locked ↦ elim (Bool-cases a.pairing_complete) [
      | inl complete ↦ elim (Bool-cases (same_peer src a.initial_peer)) [
        | inl same ↦
            subst (Outcome io data_ src a)
              (sym (accept_peer locked complete (p.has_peer complete) same))
              (peer locked complete (same_peer-eq src a.initial_peer same))
        | inr other ↦
            subst (Outcome io data_ src a)
              (sym (accept_foreign locked complete (p.has_peer complete) other))
              (foreign locked complete other)
      ]
      | inr fresh ↦
          subst (Outcome io data_ src a) (sym (accept_waiting p.guarded locked fresh))
            (waiting locked fresh)
    ]
    | inr loose ↦ subst (Outcome io data_ src a) (sym (accept_free loose)) (free loose)
  ]
