-- ===== src/Udp/Kept.antt =====
-- Every operation keeps an adapter paired with a peer that has sent a handshake.
use bcnp.Base.{
  ℕ, ◌==◌, ◌≡◌, refl, sym, ◌∙◌, arith, Bool, true, false, not, ◌&&◌, ◌||◌, Bool-cases, inl, inr,
  Option, none, some, List, [], ◌∷◌, ◌++◌, replicate, ◌/=◌, take, if◌then◌else◌, length,
}
use bcnp.Wire.{Bytes, load_u32}
use bcnp.Handshake.{validate_handshake, encode_handshake, bytes_equal, handshake_magic, schema_hash}
use bcnp.Queue.{Time}
use bcnp.Udp.{
  UdpPosixAdapter, SockAddr, send_bytes, set_peer_lock_mode, set_pairing_token, unlock_peer,
  send_handshake, process_pairing_packet,
}
use bcnp.Udp.Pairing.{is_pairing, Among, IsGuarded, IsPaired}

pub false-neq-true : ◌≡◌ {A = Bool} false true → ⊥
false-neq-true e = cc

pub unpaired :
    {hs : List SockAddr} (b : UdpPosixAdapter)
    → IsGuarded b
    → b.pairing_complete ≡ false
    → (b.peer_locked ≡ true → b.has_peer ≡ false)
    → IsPaired hs b
unpaired b g fresh no_peer = record {
  guarded = g;
  has_peer = λ e. cc;
  heard = λ e. absurd (false-neq-true (sym fresh ∙ e));
  to_peer = λ e. absurd (false-neq-true (sym fresh ∙ e));
  locked = λ e. absurd (false-neq-true (sym fresh ∙ e));
  complete = λ locked peer. absurd (false-neq-true (sym (no_peer locked) ∙ peer));
}

pub unlock_peer-IsPaired :
    (hs : List SockAddr) (a : UdpPosixAdapter) → IsPaired hs a → IsPaired hs (unlock_peer a)
unfolding unlock_peer
unlock_peer-IsPaired hs a p = rw p.guarded.not_fixed (
    unpaired _ (record { require_pairing = p.guarded.require_pairing; not_fixed = refl }) refl
      (λ e. refl))

pub lock_mode-IsPaired :
    (hs : List SockAddr) (a : UdpPosixAdapter) (b : Bool)
    → IsPaired hs a
    → IsPaired hs (set_peer_lock_mode a b)
unfolding set_peer_lock_mode
lock_mode-IsPaired hs a true p =
    rw (p.guarded.not_fixed, p.guarded.require_pairing)
      (unpaired _ (record { require_pairing = refl; not_fixed = refl }) refl (λ e. refl))
lock_mode-IsPaired hs a false p =
    unpaired _
      (record { require_pairing = p.guarded.require_pairing; not_fixed = p.guarded.not_fixed }) refl
      (λ e. absurd (false-neq-true e))

pub choose-IsPaired :
    {hs : List SockAddr} {x y : UdpPosixAdapter} (b : Bool)
    → (b ≡ true → IsPaired hs x)
    → (b ≡ false → IsPaired hs y)
    → IsPaired hs (if b then x else y)
choose-IsPaired true f g = f refl
choose-IsPaired false f g = g refl

pub token-IsPaired :
    (hs : List SockAddr) (a : UdpPosixAdapter) (t : ℕ)
    → IsPaired hs a
    → IsPaired hs (set_pairing_token a t)
unfolding set_pairing_token
token-IsPaired hs a t p =
    choose-IsPaired (a.peer_locked && a.require_pairing && not a.fixed_peer_configured)
      (λ e.
        unpaired _
          (record { require_pairing = p.guarded.require_pairing; not_fixed = p.guarded.not_fixed })
          refl (λ e. refl))
      (λ e. kept p)
  where
    kept : IsPaired hs a → IsPaired hs (record a { pairing_token = t })
    kept q = record {
      guarded = record {
        require_pairing = q.guarded.require_pairing;
        not_fixed = q.guarded.not_fixed;
      };
      has_peer = q.has_peer;
      heard = q.heard;
      to_peer = q.to_peer;
      locked = q.locked;
      complete = q.complete;
    }

pub sent-IsPaired :
    (hs : List SockAddr) (a : UdpPosixAdapter) (out : List (SockAddr × Bytes))
    → IsPaired hs a
    → IsPaired hs (record a { sent = out })
sent-IsPaired hs a out q = record {
  guarded = record { require_pairing = q.guarded.require_pairing; not_fixed = q.guarded.not_fixed };
  has_peer = q.has_peer;
  heard = q.heard;
  to_peer = q.to_peer;
  locked = q.locked;
  complete = q.complete;
}

-- A datagram is all that a send changes.
pub send_bytes-sent :
    (result : Option ℕ) (a : UdpPosixAdapter) (data_ : Option Bytes)
    → (out : List (SockAddr × Bytes)) × ((send_bytes result a data_).1 ≡ record a { sent = out })
unfolding send_bytes
send_bytes-sent result a none = (a.sent, refl)
send_bytes-sent result a (some data_) = elim (Bool-cases (length data_ == 0)) [
  | inl empty ↦ rw empty (a.sent, refl)
  | inr some_bytes ↦ rw some_bytes (elim (Bool-cases (not a.has_peer || not a.socket)) [
    | inl mute ↦ rw mute (a.sent, refl)
    | inr talks ↦ rw talks (a.sent ++ ((a.last_peer, data_) ∷ []), refl)
  ])
]

pub send_handshake-sent :
    (result : Option ℕ) (a : UdpPosixAdapter)
    → (out : List (SockAddr × Bytes)) × ((send_handshake result a).1 ≡ record a { sent = out })
unfolding send_handshake
send_handshake-sent result a = elim (Bool-cases (not a.has_peer || not a.socket)) [
  | inl mute ↦ rw mute (a.sent, refl)
  | inr talks ↦ rw talks (encoded (encode_handshake (replicate 8 0) 8))
]
  where
    encoded :
        (r : Option Bytes)
        → (out : List (SockAddr × Bytes)) × (◌≡◌ {A = UdpPosixAdapter}
            (elim r as (λ x. Bool × UdpPosixAdapter) [
              | none ↦ (false, a)
              | some bytes ↦ (
                elim result [ none ↦ false | some n ↦ n == 8 ],
                record a { sent = a.sent ++ ((a.last_peer, bytes) ∷ []) },
              )
            ]).1
            (record a { sent = out }))
    encoded none = (a.sent, refl)
    encoded (some bytes) = (a.sent ++ ((a.last_peer, bytes) ∷ []), refl)

-- The pairing takes the source for the peer.
pairing-IsPaired :
    (hs : List SockAddr) (a : UdpPosixAdapter) (src : SockAddr) (remote : ℕ)
    → IsGuarded a
    → a.peer_locked ≡ true
    → Among src hs
    → IsPaired hs (record a {
      remote_schema_hash = remote;
      initial_peer = src;
      last_peer = src;
      has_peer = true;
      pairing_complete = true;
      schema_validated = true;
    })
pairing-IsPaired hs a src remote g locked among = record {
  guarded = record { require_pairing = g.require_pairing; not_fixed = g.not_fixed };
  has_peer = λ e. refl;
  heard = λ e. among;
  to_peer = λ e. refl;
  locked = λ e. locked;
  complete = λ locked peer. refl;
}

refused :
    (hs : List SockAddr) (a : UdpPosixAdapter) (remote : ℕ) (valid : Bool)
    → IsPaired hs a
    → IsPaired hs (record a { remote_schema_hash = remote; schema_validated = valid })
refused hs a remote valid q = record {
  guarded = record { require_pairing = q.guarded.require_pairing; not_fixed = q.guarded.not_fixed };
  has_peer = q.has_peer;
  heard = q.heard;
  to_peer = q.to_peer;
  locked = q.locked;
  complete = q.complete;
}

pub at_time :
    (hs : List SockAddr) (a : UdpPosixAdapter) (now : Time)
    → IsPaired hs a
    → IsPaired hs (record a { last_peer_rx = now })
at_time hs a now q = record {
  guarded = record { require_pairing = q.guarded.require_pairing; not_fixed = q.guarded.not_fixed };
  has_peer = q.has_peer;
  heard = q.heard;
  to_peer = q.to_peer;
  locked = q.locked;
  complete = q.complete;
}

later-IsPaired :
    (hs : List SockAddr) (h : SockAddr) (a : UdpPosixAdapter) → IsPaired hs a → IsPaired (h ∷ hs) a
later-IsPaired hs h a q = record {
  guarded = q.guarded;
  has_peer = q.has_peer;
  heard = λ e. inr (q.heard e);
  to_peer = q.to_peer;
  locked = q.locked;
  complete = q.complete;
}

-- What the source of a datagram adds to those that were heard.
abbrev pub with_source : List SockAddr → Bytes → SockAddr → List SockAddr
with_source hs data_ src = if is_pairing data_ then src ∷ hs else hs

pub with_source-IsPaired :
    (hs : List SockAddr) (data_ : Bytes) (src : SockAddr) (a : UdpPosixAdapter)
    → IsPaired hs a
    → IsPaired (with_source hs data_ src) a
with_source-IsPaired hs data_ src a q = elim (Bool-cases (is_pairing data_)) [
  | inl yes_it ↦ rw yes_it (later-IsPaired hs src a q)
  | inr no_it ↦ rw no_it q
]

pairing_parts :
    (data_ : Bytes)
    → (length data_ /= 8) ≡ false
    → not (bytes_equal (take 4 data_) handshake_magic) ≡ false
    → (load_u32 data_ 4 /= schema_hash) ≡ false
    → is_pairing data_ ≡ true
unfolding validate_handshake
pairing_parts data_ eight magic own = ground arith

pub process-IsPaired :
    (hs : List SockAddr) (result : Option ℕ) (data_ : Bytes) (src : SockAddr) (a : UdpPosixAdapter)
    → a.peer_locked ≡ true
    → IsPaired hs a
    → IsPaired (with_source hs data_ src) (process_pairing_packet result data_ src a).1
unfolding process_pairing_packet
process-IsPaired hs result data_ src a locked p = elim (Bool-cases (length data_ /= 8)) [
  | inl other ↦ rw other (with_source-IsPaired hs data_ src a p)
  | inr eight ↦ rw eight (elim (Bool-cases (not (bytes_equal (take 4 data_) handshake_magic))) [
    | inl wrong ↦ rw wrong (with_source-IsPaired hs data_ src a p)
    | inr magic ↦ rw magic (elim (Bool-cases (load_u32 data_ 4 /= schema_hash)) [
      | inl foreign ↦
          rw foreign (with_source-IsPaired hs data_ src _ (refused hs a (load_u32 data_ 4) false p))
      | inr own ↦
          let whole = record a {
            remote_schema_hash = load_u32 data_ 4;
            initial_peer = src;
            last_peer = src;
            has_peer = true;
            pairing_complete = true;
            schema_validated = true;
          } in
          let (out, sent_is) = send_handshake-sent result whole in
          rw own (
            rw (pairing_parts data_ eight magic own) (
              rw sent_is (
                sent-IsPaired (src ∷ hs) whole out (
                  pairing-IsPaired (src ∷ hs) a src (load_u32 data_ 4) p.guarded locked
                    (inl refl)))))
    ])
  ])
]
