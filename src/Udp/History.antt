-- ===== src/Udp/History.antt =====
-- Over every history of the calls, a locked adapter deals only with a peer that has sent a handshake.
use mathlib.Core.Path.{subst}
use bcnp.Base.{
  ℕ, ◌==◌, ◌<◌, ◌≡◌, refl, sym, ap, ◌∙◌, arith, Bool, true, false, not, ◌||◌, Bool-cases, inl, inr,
  Option, none, some, List, [], ◌∷◌, if◌then◌else◌, length, take,
}
use bcnp.Wire.{Bytes}
use bcnp.Udp.{
  UdpPosixAdapter, SockAddr, Receiving, process_pairing_packet, unlock_peer, accept, receive_chunk,
  is_expired,
}
use bcnp.Udp.Pairing.{
  Call, receive, send, handshake, token, unlock, lock_mode, step, run, heard_in, heard, Among,
  IsPaired,
}
use bcnp.Udp.Kept.{
  choose-IsPaired, with_source, with_source-IsPaired, process-IsPaired, at_time,
  unlock_peer-IsPaired, lock_mode-IsPaired, token-IsPaired, sent-IsPaired, send_bytes-sent,
  send_handshake-sent, false-neq-true,
}
use bcnp.Udp.Peer.{Outcome, free, waiting, foreign, peer, accept-Outcome}

module _ (hs : List SockAddr) (io : Receiving) (data_ : Bytes) (src : SockAddr)
    (a : UdpPosixAdapter) (p : IsPaired hs a) where
  timed :
      (b : Bool) (c : UdpPosixAdapter)
      → IsPaired (with_source hs data_ src) c
      → IsPaired (with_source hs data_ src) (if b then record c { last_peer_rx = io.now } else c)
  timed true c q = at_time (with_source hs data_ src) c io.now q
  timed false c q = q

  outcome-IsPaired :
      {r : Bytes × UdpPosixAdapter}
      → Outcome io data_ src a r
      → IsPaired (with_source hs data_ src) r.1
  outcome-IsPaired (free loose) = record {
    guarded = record {
      require_pairing = p.guarded.require_pairing;
      not_fixed = p.guarded.not_fixed;
    };
    has_peer = λ e. refl;
    heard = λ e. absurd (false-neq-true (sym loose ∙ p.locked e));
    to_peer = λ e. absurd (false-neq-true (sym loose ∙ p.locked e));
    locked = λ e. p.locked e;
    complete = λ e there. absurd (false-neq-true (sym loose ∙ e));
  }
  outcome-IsPaired (waiting locked fresh) =
      timed (process_pairing_packet io.handshake_sent data_ src a).0
        (process_pairing_packet io.handshake_sent data_ src a).1
        (process-IsPaired hs io.handshake_sent data_ src a locked p)
  outcome-IsPaired (foreign locked complete other) = with_source-IsPaired hs data_ src a p
  outcome-IsPaired (peer locked complete same) =
      let q = with_source-IsPaired hs data_ src a p in
      record {
        guarded = record {
          require_pairing = p.guarded.require_pairing;
          not_fixed = p.guarded.not_fixed;
        };
        has_peer = q.has_peer;
        heard = q.heard;
        to_peer = λ e. same;
        locked = q.locked;
        complete = q.complete;
      }

  -- What a locked adapter passes up comes from its peer.
  outcome_from_peer :
      {r : Bytes × UdpPosixAdapter}
      → Outcome io data_ src a r
      → a.peer_locked ≡ true
      → 0 < length r.0
      → (r.0 ≡ data_) × Among src hs
  outcome_from_peer (free loose) locked some_bytes = absurd (false-neq-true (sym loose ∙ locked))
  outcome_from_peer (waiting l fresh) locked some_bytes = absurd (omega arith)
  outcome_from_peer (foreign l complete other) locked some_bytes = absurd (omega arith)
  outcome_from_peer (peer l complete same) locked some_bytes = (refl, rw same (p.heard complete))

-- The adapter behind the test for the timeout.
abbrev pub current : UdpPosixAdapter → Receiving → UdpPosixAdapter
current a io = if is_expired a io.now then unlock_peer a else a

pub current-IsPaired :
    (hs : List SockAddr) (a : UdpPosixAdapter) (io : Receiving)
    → IsPaired hs a
    → IsPaired hs (current a io)
current-IsPaired hs a io p =
    choose-IsPaired (is_expired a io.now) (λ e. unlock_peer-IsPaired hs a p) (λ e. p)

got-IsPaired :
    (n : ℕ) (hs : List SockAddr) (io : Receiving) (c : UdpPosixAdapter)
    (o : Option (Bytes × SockAddr))
    → IsPaired hs c
    → IsPaired
        (elim o [ none ↦ hs | some got ↦ with_source hs (take n got.0) got.1 ])
        (elim o as (λ x. Bytes × UdpPosixAdapter) [
          | none ↦ ([], c)
          | some got ↦ accept io (take n got.0) got.1 c
        ]).1
got-IsPaired n hs io c none p = p
got-IsPaired n hs io c (some got) p =
    outcome-IsPaired hs io (take n got.0) got.1 c p (accept-Outcome io (take n got.0) got.1 c hs p)

still-IsPaired :
    (n : ℕ) (hs : List SockAddr) (a : UdpPosixAdapter) (o : Option (Bytes × SockAddr))
    → IsPaired hs a
    → IsPaired (elim o [ none ↦ hs | some got ↦ with_source hs (take n got.0) got.1 ]) a
still-IsPaired n hs a none p = p
still-IsPaired n hs a (some got) p = with_source-IsPaired hs (take n got.0) got.1 a p

module _ (n : ℕ) (io : Receiving) (a : UdpPosixAdapter) where
  receive_closed : not a.socket || n == 0 ≡ true → receive_chunk n io a ≡ ([], a)
  unfolding receive_chunk
  receive_closed e = rw e refl

  pub receive_ready :
      not a.socket || n == 0 ≡ false
      → receive_chunk n io a ≡ (elim io.datagram as (λ x. Bytes × UdpPosixAdapter) [
        | none ↦ ([], current a io)
        | some got ↦ accept io (take n got.0) got.1 (current a io)
      ])
  unfolding receive_chunk
  receive_ready e = rw e refl

  receive-IsPaired :
      (hs : List SockAddr)
      → IsPaired hs a
      → IsPaired (heard_in hs (receive n io)) (receive_chunk n io a).1
  receive-IsPaired hs p = elim (Bool-cases (not a.socket || n == 0)) [
    | inl closed ↦
        subst {A = Bytes × UdpPosixAdapter} (λ r. IsPaired (heard_in hs (receive n io)) r.1)
          (sym (receive_closed closed)) (still-IsPaired n hs a io.datagram p)
    | inr ready ↦
        subst {A = Bytes × UdpPosixAdapter} (λ r. IsPaired (heard_in hs (receive n io)) r.1)
          (sym (receive_ready ready))
          (got-IsPaired n hs io (current a io) io.datagram (current-IsPaired hs a io p))
  ]

  pub current_locked : (current a io).peer_locked ≡ a.peer_locked
  unfolding unlock_peer
  current_locked = ground arith

  receive_datagram :
      (data_ : Bytes) (src : SockAddr)
      → io.datagram ≡ some (data_, src)
      → 0 < length (receive_chunk n io a).0
      → receive_chunk n io a ≡ accept io (take n data_) src (current a io)
  receive_datagram data_ src d some_bytes = elim (Bool-cases (not a.socket || n == 0)) [
    | inl closed ↦ absurd (omega (arith, ap (λ r. length r.0) (receive_closed closed)))
    | inr ready ↦
        receive_ready ready
        ∙ ap
            (λ o. elim o as (λ x. Bytes × UdpPosixAdapter) [
              | none ↦ ([], current a io)
              | some got ↦ accept io (take n got.0) got.1 (current a io)
            ])
            d
  ]

  pub receive_from_peer :
      (hs : List SockAddr) (data_ : Bytes) (src : SockAddr)
      → IsPaired hs a
      → a.peer_locked ≡ true
      → io.datagram ≡ some (data_, src)
      → 0 < length (receive_chunk n io a).0
      → ((receive_chunk n io a).0 ≡ take n data_) × Among src hs
  receive_from_peer hs data_ src p locked d some_bytes =
      let e = receive_datagram data_ src d some_bytes in
      let q = current-IsPaired hs a io p in
      let (same, among) =
        outcome_from_peer hs io (take n data_) src (current a io) q
          (accept-Outcome io (take n data_) src (current a io) hs q) (current_locked ∙ locked)
          (omega (arith, ap (λ r. length r.0) e)) in
      (ap (λ r. r.0) e ∙ same, among)

step-IsPaired :
    (hs : List SockAddr) (a : UdpPosixAdapter) (c : Call)
    → IsPaired hs a
    → IsPaired (heard_in hs c) (step a c)
step-IsPaired hs a (receive n io) p = receive-IsPaired n io a hs p
step-IsPaired hs a (send result data_) p =
    let (out, e) = send_bytes-sent result a data_ in
    subst (IsPaired hs) (sym e) (sent-IsPaired hs a out p)
step-IsPaired hs a (handshake result) p =
    let (out, e) = send_handshake-sent result a in
    subst (IsPaired hs) (sym e) (sent-IsPaired hs a out p)
step-IsPaired hs a (token t) p = token-IsPaired hs a t p
step-IsPaired hs a unlock p = unlock_peer-IsPaired hs a p
step-IsPaired hs a (lock_mode b) p = lock_mode-IsPaired hs a b p

pub run-IsPaired :
    (cs : List Call) (hs : List SockAddr) (a : UdpPosixAdapter)
    → IsPaired hs a
    → IsPaired (heard hs cs) (run a cs)
run-IsPaired [] hs a p = p
run-IsPaired (c ∷ cs) hs a p = run-IsPaired cs (heard_in hs c) (step a c) (step-IsPaired hs a c p)
