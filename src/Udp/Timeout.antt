-- ===== src/Udp/Timeout.antt =====
-- Before its timeout a peer keeps its place, and after it another one can take it.
use mathlib.Core.Path.{subst}
use bcnp.Base.{
  ℕ, ◌+◌, ◌==◌, ◌/=◌, ◌<◌, ◌≡◌, refl, sym, ap, ◌∙◌, arith, Bool, true, false, not, ◌||◌, Option,
  none, some, List, [], lt→ltb, take, if◌then◌else◌, length,
}
use bcnp.Wire.{Bytes, load_u32}
use bcnp.Handshake.{validate_handshake, handshake_magic, schema_hash, bytes_equal}
use bcnp.Udp.{
  UdpPosixAdapter, SockAddr, Receiving, process_pairing_packet, unlock_peer, accept, receive_chunk,
  is_expired,
}
use bcnp.Udp.Pairing.{is_pairing, IsGuarded, IsPaired, process_pairing_packet_lem}
use bcnp.Udp.Kept.{send_handshake-sent}
use bcnp.Udp.Peer.{accept_waiting}
use bcnp.Udp.History.{current, current-IsPaired, current_locked, receive_ready}

-- The adapter is paired with this source.
pub record PairedWith (src : SockAddr) (a : UdpPosixAdapter) : Type 0 where
  pub initial_peer : a.initial_peer ≡ src
  pub last_peer : a.last_peer ≡ src
  pub has_peer : a.has_peer ≡ true
  pub pairing_complete : a.pairing_complete ≡ true
  pub schema_validated : a.schema_validated ≡ true

process_pairs :
    (result : Option ℕ) (data_ : Bytes) (src : SockAddr) (a : UdpPosixAdapter)
    → is_pairing data_ ≡ true
    → PairedWith src (process_pairing_packet result data_ src a).1
unfolding process_pairing_packet validate_handshake
process_pairs result data_ src a e =
    let whole = record a {
      remote_schema_hash = load_u32 data_ 4;
      initial_peer = src;
      last_peer = src;
      has_peer = true;
      pairing_complete = true;
      schema_validated = true;
    } in
    let (out, sent_is) = send_handshake-sent result whole in
    let eight : (length data_ /= 8) ≡ false = ground (arith, e) in
    let magic : not (bytes_equal (take 4 data_) handshake_magic) ≡ false = ground (arith, e) in
    let own : (load_u32 data_ 4 /= schema_hash) ≡ false = ground (arith, e) in
    rw (eight, magic, own)
      (rw sent_is (record {
        initial_peer = refl;
        last_peer = refl;
        has_peer = refl;
        pairing_complete = refl;
        schema_validated = refl;
      }))

timed-PairedWith :
    (src : SockAddr) (b : Bool) (now : ℕ) (c : UdpPosixAdapter)
    → PairedWith src c
    → b ≡ true
    → PairedWith src (if b then record c { last_peer_rx = now } else c)
      × ((if b then record c { last_peer_rx = now } else c).last_peer_rx ≡ now)
timed-PairedWith src true now c p e = (
  record {
    initial_peer = p.initial_peer;
    last_peer = p.last_peer;
    has_peer = p.has_peer;
    pairing_complete = p.pairing_complete;
    schema_validated = p.schema_validated;
  },
  refl,
)
timed-PairedWith src false now c p e = absurd (clash e)
  where
    clash : ◌≡◌ {A = Bool} false true → ⊥
    clash h = cc

unlocked_pairing : (a : UdpPosixAdapter) → IsGuarded a → (unlock_peer a).pairing_complete ≡ false
unfolding unlock_peer
unlocked_pairing a g = rw g.not_fixed refl

module _ (hs : List SockAddr) (n : ℕ) (io : Receiving) (a : UdpPosixAdapter) (p : IsPaired hs a)
    (opened : a.socket ≡ true) (room : 0 < n) (locked : a.peer_locked ≡ true)
    (there : a.has_peer ≡ true) (data_ : Bytes) (src : SockAddr)
    (datagram : io.datagram ≡ some (data_, src)) where
  ready : not a.socket || n == 0 ≡ false
  ready = ground (arith, opened)

  received_is : receive_chunk n io a ≡ accept io (take n data_) src (current a io)
  received_is =
      receive_ready n io a ready
      ∙ ap
          (λ o. elim o as (λ x. Bytes × UdpPosixAdapter) [
            | none ↦ ([], current a io)
            | some got ↦ accept io (take n got.0) got.1 (current a io)
          ])
          datagram

  -- Once the last datagram of the peer is older than five seconds, a handshake of any source makes that
  -- source the peer: of an adapter that must be paired, with a port and no fixed target, that is open
  -- and locked and has a peer from which it has got a datagram, where the buffer takes exactly a
  -- handshake with the own schema hash of what the source sends.
  pub peer_replaced :
      0 < a.last_peer_rx
      → a.last_peer_rx + 5000000000 < io.now
      → is_pairing (take n data_) ≡ true
      → ((receive_chunk n io a).0 ≡ [])
        × PairedWith src (receive_chunk n io a).1
        × ((receive_chunk n io a).1.last_peer_rx ≡ io.now)
  peer_replaced some_time old pairing =
      let late = lt→ltb (a.last_peer_rx + 5000000000) io.now old in
      let expired : is_expired a io.now ≡ true = ground (arith, late, p.guarded.not_fixed) in
      let free : (current a io).pairing_complete ≡ false =
        ap (λ b. (if b then unlock_peer a else a).pairing_complete) expired
        ∙ unlocked_pairing a p.guarded in
      let q = current-IsPaired hs a io p in
      let r = process_pairing_packet io.handshake_sent (take n data_) src (current a io) in
      let took =
        timed-PairedWith src r.0 io.now r.1
          (process_pairs io.handshake_sent (take n data_) src (current a io) pairing)
          (process_pairing_packet_lem io.handshake_sent (take n data_) src (current a io)
            ∙ pairing) in
      let e =
        received_is
        ∙ accept_waiting io (take n data_) src (current a io) q.guarded
            (current_locked n io a ∙ locked) free in
      (
        ap (λ k. k.0) e,
        subst {A = Bytes × UdpPosixAdapter} (λ k. PairedWith src k.1) (sym e) took.0,
        ap (λ k. k.1.last_peer_rx) e ∙ took.1,
      )
