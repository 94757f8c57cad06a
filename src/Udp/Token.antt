-- ===== src/Udp/Token.antt =====
-- The pairing token is stored, and never looked at.
use bcnp.Base.{
  ℕ, ◌≡◌, refl, ap, ◌∙◌, Bool, true, false, not, ◌&&◌, ◌||◌, ◌==◌, ◌/=◌, Bool-cases, inl, inr,
  Option, none, some, List, [], ◌∷◌, ◌++◌, take, replicate, length, if◌then◌else◌,
}
use bcnp.Wire.{Bytes, load_u32}
use bcnp.Handshake.{handshake_magic, schema_hash, bytes_equal, encode_handshake}
use bcnp.Udp.{
  UdpPosixAdapter, SockAddr, Receiving, send_bytes, set_peer_lock_mode, set_pairing_token,
  unlock_peer, send_handshake, process_pairing_packet, accept, receive_chunk, same_peer, is_expired,
}
use bcnp.Udp.Pairing.{Call, receive, send, handshake, token, unlock, lock_mode, step, run}

module _ (t : ℕ) where
  abbrev pub with_token : UdpPosixAdapter → UdpPosixAdapter
  with_token a = record a { pairing_token = t }

  -- The call, with the token in place of its own.
  abbrev pub retoken : Call → Call
  retoken (token s) = token t
  retoken c = c

  abbrev pub retoken_all : List Call → List Call
  retoken_all [] = []
  retoken_all (c ∷ cs) = retoken c ∷ retoken_all cs

  unlock_peer-with_token :
      (a : UdpPosixAdapter) → unlock_peer (with_token a) ≡ with_token (unlock_peer a)
  unfolding unlock_peer
  unlock_peer-with_token a = elim (Bool-cases a.fixed_peer_configured) [
    | inl fixed ↦ rw fixed refl
    | inr open_ ↦ rw open_ refl
  ]

  set_pairing_token-with_token :
      (a : UdpPosixAdapter) (s : ℕ)
      → set_pairing_token (with_token a) t ≡ with_token (set_pairing_token a s)
  unfolding set_pairing_token
  set_pairing_token-with_token a s =
      elim (Bool-cases (a.peer_locked && a.require_pairing && not a.fixed_peer_configured)) [
        | inl reset ↦ rw reset refl
        | inr kept ↦ rw kept refl
      ]

  lock_mode-with_token :
      (a : UdpPosixAdapter) (b : Bool)
      → set_peer_lock_mode (with_token a) b ≡ with_token (set_peer_lock_mode a b)
  unfolding set_peer_lock_mode
  lock_mode-with_token a false = refl
  lock_mode-with_token a true = elim (Bool-cases (a.fixed_peer_configured && a.has_peer)) [
    | inl fixed ↦ rw fixed refl
    | inr open_ ↦ rw open_ (elim (Bool-cases a.require_pairing) [
      | inl needed ↦ rw needed refl
      | inr free ↦ rw free refl
    ])
  ]

  send_bytes-with_token :
      (result : Option ℕ) (a : UdpPosixAdapter) (data_ : Option Bytes)
      → send_bytes result (with_token a) data_
        ≡ ((send_bytes result a data_).0, with_token (send_bytes result a data_).1)
  unfolding send_bytes
  send_bytes-with_token result a none = refl
  send_bytes-with_token result a (some data_) = elim (Bool-cases (length data_ == 0)) [
    | inl empty ↦ rw empty refl
    | inr some_bytes ↦ rw some_bytes (elim (Bool-cases (not a.has_peer || not a.socket)) [
      | inl mute ↦ rw mute refl
      | inr talks ↦ rw talks refl
    ])
  ]

  send_handshake-with_token :
      (result : Option ℕ) (a : UdpPosixAdapter)
      → send_handshake result (with_token a)
        ≡ ((send_handshake result a).0, with_token (send_handshake result a).1)
  unfolding send_handshake
  send_handshake-with_token result a = elim (Bool-cases (not a.has_peer || not a.socket)) [
    | inl mute ↦ rw mute refl
    | inr talks ↦ rw talks (encoded (encode_handshake (replicate 8 0) 8))
  ]
    where
      answer : Option Bytes → UdpPosixAdapter → Bool × UdpPosixAdapter
      answer r b = elim r as (λ x. Bool × UdpPosixAdapter) [
        | none ↦ (false, b)
        | some bytes ↦ (
          elim result [ none ↦ false | some n ↦ n == 8 ],
          record b { sent = b.sent ++ ((b.last_peer, bytes) ∷ []) },
        )
      ]

      encoded :
          (r : Option Bytes) → answer r (with_token a) ≡ ((answer r a).0, with_token (answer r a).1)
      encoded none = refl
      encoded (some bytes) = refl

  process-with_token :
      (result : Option ℕ) (data_ : Bytes) (src : SockAddr) (a : UdpPosixAdapter)
      → process_pairing_packet result data_ src (with_token a) ≡ (
        (process_pairing_packet result data_ src a).0,
        with_token (process_pairing_packet result data_ src a).1,
      )
  unfolding process_pairing_packet
  process-with_token result data_ src a = elim (Bool-cases (length data_ /= 8)) [
    | inl other ↦ rw other refl
    | inr eight ↦ rw eight (elim (Bool-cases (not (bytes_equal (take 4 data_) handshake_magic))) [
      | inl wrong ↦ rw wrong refl
      | inr magic ↦ rw magic (elim (Bool-cases (load_u32 data_ 4 /= schema_hash)) [
        | inl foreign ↦ rw foreign refl
        | inr own ↦ rw own (
            ap (λ r. (true, r.1))
              (send_handshake-with_token result (record a {
                remote_schema_hash = load_u32 data_ 4;
                initial_peer = src;
                last_peer = src;
                has_peer = true;
                pairing_complete = true;
                schema_validated = true;
              })))
      ])
    ])
  ]

  retag : Bytes × UdpPosixAdapter → Bytes × UdpPosixAdapter
  retag r = (r.0, with_token r.1)

  if-retag :
      (b : Bool) (x y x' y' : Bytes × UdpPosixAdapter)
      → x' ≡ retag x
      → y' ≡ retag y
      → (if b then x' else y') ≡ retag (if b then x else y)
  if-retag true x y x' y' e f = e
  if-retag false x y x' y' e f = f

  timed :
      (now : ℕ) (b : Bool) (c : UdpPosixAdapter)
      → (if b then record (with_token c) { last_peer_rx = now } else with_token c)
        ≡ with_token (if b then record c { last_peer_rx = now } else c)
  timed now true c = refl
  timed now false c = refl

  chosen :
      (src : SockAddr) (now : ℕ) (b : Bool) (a : UdpPosixAdapter)
      → record (if b
          then record (with_token a) { initial_peer = src; has_peer = true }
          else with_token a) { last_peer = src; last_peer_rx = now }
        ≡ with_token (record (if b then record a { initial_peer = src; has_peer = true } else a) {
          last_peer = src;
          last_peer_rx = now;
        })
  chosen src now true a = refl
  chosen src now false a = refl

  accept-with_token :
      (io : Receiving) (data_ : Bytes) (src : SockAddr) (a : UdpPosixAdapter)
      → accept io data_ src (with_token a) ≡ retag (accept io data_ src a)
  unfolding accept retag
  accept-with_token io data_ src a =
      let r = process_pairing_packet io.handshake_sent data_ src a in
      if-retag a.peer_locked _ _ _ _
        (if-retag (a.require_pairing && not a.pairing_complete && not a.fixed_peer_configured) _ _ _
          _
          (ap (λ q. ([], if q.0 then record q.1 { last_peer_rx = io.now } else q.1))
              (process-with_token io.handshake_sent data_ src a)
            ∙ ap (λ c. ([], c)) (timed io.now r.0 r.1))
          (if-retag (a.has_peer && not (same_peer src a.initial_peer)) _ _ _ _ refl
            (ap (λ c. (data_, c)) (chosen src io.now (not a.has_peer) a))))
        refl

  current-with_token :
      (b : Bool) (a : UdpPosixAdapter)
      → (if b then unlock_peer (with_token a) else with_token a)
        ≡ with_token (if b then unlock_peer a else a)
  current-with_token true a = unlock_peer-with_token a
  current-with_token false a = refl

  got-with_token :
      (n : ℕ) (io : Receiving) (o : Option (Bytes × SockAddr)) (b c : UdpPosixAdapter)
      → b ≡ with_token c
      → (elim o as (λ x. Bytes × UdpPosixAdapter) [
        | none ↦ ([], b)
        | some got ↦ accept io (take n got.0) got.1 b
      ])
        ≡ retag (elim o as (λ x. Bytes × UdpPosixAdapter) [
          | none ↦ ([], c)
          | some got ↦ accept io (take n got.0) got.1 c
        ])
  unfolding retag
  got-with_token n io none b c e = ap (λ k. ([], k)) e
  got-with_token n io (some got) b c e =
      ap (accept io (take n got.0) got.1) e ∙ accept-with_token io (take n got.0) got.1 c

  receive_chunk-with_token :
      (n : ℕ) (io : Receiving) (a : UdpPosixAdapter)
      → receive_chunk n io (with_token a) ≡ retag (receive_chunk n io a)
  unfolding receive_chunk retag
  receive_chunk-with_token n io a =
      if-retag (not a.socket || n == 0) _ _ _ _ refl
        (got-with_token n io io.datagram _ _ (current-with_token (is_expired a io.now) a))

  step-with_token :
      (a : UdpPosixAdapter) (c : Call) → step (with_token a) (retoken c) ≡ with_token (step a c)
  unfolding retag
  step-with_token a (receive n io) = ap (λ r. r.1) (receive_chunk-with_token n io a)
  step-with_token a (send result data_) = ap (λ r. r.1) (send_bytes-with_token result a data_)
  step-with_token a (handshake result) = ap (λ r. r.1) (send_handshake-with_token result a)
  step-with_token a (token s) = set_pairing_token-with_token a s
  step-with_token a unlock = unlock_peer-with_token a
  step-with_token a (lock_mode b) = lock_mode-with_token a b

  -- With any other tokens set in the same calls, an adapter is the same but for the token that it
  -- stores, and passes up the same bytes.
  pub token_ignored :
      (cs : List Call) (a : UdpPosixAdapter) (n : ℕ) (io : Receiving)
      → (run (with_token a) (retoken_all cs) ≡ with_token (run a cs))
        × ((receive_chunk n io (run (with_token a) (retoken_all cs))).0
            ≡ (receive_chunk n io (run a cs)).0)
  unfolding retag
  token_ignored cs a n io =
      let same = runs cs a in
      (
        same,
        ap (λ b. (receive_chunk n io b).0) same
            ∙ ap (λ r. r.0) (receive_chunk-with_token n io (run a cs)),
      )
    where
      runs :
          (ds : List Call) (b : UdpPosixAdapter)
          → run (with_token b) (retoken_all ds) ≡ with_token (run b ds)
      runs [] b = refl
      runs (c ∷ ds) b = ap (λ d. run d (retoken_all ds)) (step-with_token b c) ∙ runs ds (step b c)
