-- ===== src/Tcp/Send.antt =====
-- When `SendBytes` takes what it is given, and where it goes.
use bcnp.Base.{
  ℕ, ◌+◌, ◌/◌, ◌≤◌, ◌<◌, ◌==◌, ◌≡◌, refl, sym, ap, ap₂, ◌∙◌, arith, Bool, true, false, not, ◌&&◌,
  ◌||◌, some, ◌∷◌, ◌++◌, if◌then◌else◌, ltb, leb, length, Bool-cases, inl, inr,
}
use bcnp.Wire.{Bytes}
use bcnp.Handshake.Laws.{handshake_of}
use bcnp.Tcp.{TcpPosixAdapter, TxRing, SendAnswers, would_block, Polling, queued}
use bcnp.Tcp.Ring.{enqueue_tx, takes_bytes, write_ring}
use bcnp.Tcp.Connection.{is_open, poll_connection, poll_client, try_flush_tx_buffer}
use bcnp.Tcp.Session.{send_bytes, send_handshake, target_socket, get_expected_schema_hash}
use bcnp.Tcp.Ring.Content.{content, takes_bytes_iff, write_ring_refines}
use bcnp.Tcp.Invariant.Talking.{poll_connection-kept}
use bcnp.Tcp.Stream.{IsAccounted, accounted, queued-IsAccount}
use bcnp.Tcp.Delivery.{length-handshake_of}
use bcnp.Base.Choices.{pick_false, pick_some}
use bcnp.Tcp.Loss.{enqueue_tx_room, send_handshake_lem}
use bcnp.Tcp.Zombie.{try_flush-would_block}

-- The tests of `SendBytes` behind the poll, for bytes that are there.
tests :
    (open_ up big room : Bool) (b x : TcpPosixAdapter) (t : TcpPosixAdapter → TcpPosixAdapter)
    → (big ≡ true → room ≡ false)
    → let r : Bool × TcpPosixAdapter = if room then (true, x) else (false, b) in
      let s : Bool × TcpPosixAdapter =
        if not open_ || not up
        then (false, b)
        else if big
        then (false, b)
        else if not r.0
        then (false, r.1)
        else (true, t r.1) in
      (s.0 ≡ (open_ && (up && room)))
      × (s.0 ≡ false → s.1 ≡ b)
      × (s.0 ≡ true → (room ≡ true) × (s.1 ≡ t x))
tests false up big room b x t h = (refl, λ e. refl, λ e. cc)
tests true false big room b x t h = (refl, λ e. refl, λ e. cc)
tests true true true room b x t h = (sym (h refl), λ e. refl, λ e. cc)
tests true true false false b x t h = (refl, λ e. refl, λ e. cc)
tests true true false true b x t h = (refl, λ e. cc, λ e. (refl, refl))

too_big :
    (a : TcpPosixAdapter) (n : ℕ) → ltb (length a.tx.buffer) n ≡ true → takes_bytes a.tx n ≡ false
too_big a n big = ground arith

-- There is room for so many bytes in a ring of this capacity.
abbrev pub has_room : ℕ → TxRing → ℕ → Bool
has_room cap r n = leb r.size (cap / 2) && leb (r.size + n) cap

takes_bytes-has_room : (r : TxRing) (n : ℕ) → takes_bytes r n ≡ has_room (length r.buffer) r n
takes_bytes-has_room r n = ground arith

-- `SendBytes` of an adapter whose ring of `n` bytes is in order answers true exactly if there is nothing
-- to send, or if the poll that it makes leaves a connection and a ring that is at most half full with
-- room for the bytes. If it answers false, the poll is all that it has done; if it answers true and
-- there is something to send, the bytes stand behind all that waits when the ring is flushed, and
-- nothing else is done before the flush.
pub send_bytes_accepts :
    (n : ℕ) (poll : Polling) (answers : SendAnswers) (a : TcpPosixAdapter) (data_ : Bytes)
    → IsAccounted n a
    → let b = poll_connection poll a in
      let (ok, c) = send_bytes poll answers a (some data_) in
      (ok ≡ (
        length data_ == 0
        || (is_open (target_socket b) && (b.is_connected && has_room n b.tx (length data_)))))
      × (ok ≡ false → c ≡ b)
      × (ok ≡ true
          → 0 < length data_
          → (r : TxRing) × (content r ≡ content b.tx ++ data_)
            × (length r.buffer ≡ n)
            × (c
                ≡ try_flush_tx_buffer
                    (target_socket b)
                    answers
                    (record b { tx = r; log = queued data_ ∷ b.log })))
unfolding send_bytes enqueue_tx
send_bytes_accepts n poll answers a data_ p = elim (Bool-cases (length data_ == 0)) [
  | inl empty ↦ rw empty (refl, (λ e. cc), λ e pos. absurd (ground (arith, empty)))
  | inr some_bytes ↦
      let b = poll_connection poll a in
      let q = poll_connection-kept (IsAccounted n) (accounted n).link poll a p in
      let (exact, refused, taken) =
        tests (is_open (target_socket b)) b.is_connected (ltb (length b.tx.buffer) (length data_))
          (takes_bytes b.tx (length data_)) b
          (record b { tx = write_ring data_ b.tx; log = queued data_ ∷ b.log })
          (try_flush_tx_buffer (target_socket b) answers) (too_big b (length data_)) in
      let room : takes_bytes b.tx (length data_) ≡ has_room n b.tx (length data_) =
        takes_bytes-has_room b.tx (length data_)
        ∙ ap (λ k. has_room k b.tx (length data_)) q.capacity in
      rw some_bytes (
        exact ∙ ap (λ k. is_open (target_socket b) && (b.is_connected && k)) room,
        refused,
        λ e pos.
            let r = queued-IsAccount n b.tx b.log data_ (taken e).0 q in
            let fits = ((takes_bytes_iff b.tx (length data_) q.ring.size_le).0 (taken e).0).1 in
            (
              write_ring data_ b.tx,
              (write_ring_refines b.tx data_ q.ring fits).0,
              r.capacity,
              (taken e).1,
            ),
      )
]

size-write_ring : (r : TxRing) (bytes : Bytes) → (write_ring bytes r).size ≡ r.size + length bytes
unfolding write_ring
size-write_ring r bytes = refl

-- A client that is connected polls in vain.
poll_connected :
    (poll : Polling) (a : TcpPosixAdapter) (fd : ℕ)
    → a.is_server ≡ false
    → a.socket ≡ some fd
    → a.is_connected ≡ true
    → poll_connection poll a ≡ a
unfolding poll_connection poll_client
poll_connected poll a fd client there up =
    pick_false _ _ client
    ∙ pick_some _ _ fd there
    ∙ pick_false {b = not a.is_connected && a.connect_in_progress} _ _ (ground (arith, up))
    ∙ pick_false _ _ (ap not up)

module _ (poll : Polling) (a : TcpPosixAdapter) (fd : ℕ) (data_ : Bytes)
    (client : a.is_server ≡ false) (there : a.socket ≡ some fd) (up : a.is_connected ≡ true)
    (some_bytes : 0 < length data_) (room : takes_bytes a.tx (length data_) ≡ true) where
  -- A connected client whose kernel takes nothing, with room in its ring, puts the bytes there.
  send_bytes-queued :
      (send_bytes poll would_block a (some data_)).1
      ≡ record a { tx = write_ring data_ a.tx; log = queued data_ ∷ a.log }
  unfolding send_bytes
  send_bytes-queued =
      ap (λ r. r.1)
        (pick_false {b = length data_ == 0} _ _ (ground arith)
          ∙ ap rest (poll_connected poll a fd client there up)
          ∙ pick_false _ _
              (ap₂ (λ o c. not (is_open o) || not c) (pick_false _ _ client ∙ there) up)
          ∙ pick_false {b = ltb (length a.tx.buffer) (length data_)} _ _ (ground arith)
          ∙ ap flushed (enqueue_tx_room data_ a some_bytes room))
      ∙ try_flush-would_block (target_socket a) would_block _ refl
    where
      rest : TcpPosixAdapter → Bool × TcpPosixAdapter
      rest b =
          let (ok, c) = enqueue_tx data_ b in
          if not (is_open (target_socket b)) || not b.is_connected
          then (false, b)
          else if ltb (length b.tx.buffer) (length data_)
          then (false, b)
          else if not ok
          then (false, c)
          else (true, try_flush_tx_buffer (target_socket b) would_block c)

      flushed : Bool × TcpPosixAdapter → Bool × TcpPosixAdapter
      flushed r =
          if not r.0
          then (false, r.1)
          else (true, try_flush_tx_buffer (target_socket a) would_block r.1)

  queued_before :
      takes_bytes (write_ring data_ a.tx) 8 ≡ true
      → let b = (send_bytes poll would_block a (some data_)).1 in
        (send_handshake would_block b).1.tx
        ≡ write_ring (handshake_of (get_expected_schema_hash a)) (write_ring data_ a.tx)
  unfolding get_expected_schema_hash
  queued_before room_left =
      let b = record a { tx = write_ring data_ a.tx; log = queued data_ ∷ a.log } in
      ap (λ c. (send_handshake would_block c).1.tx) send_bytes-queued
      ∙ ap (λ r. r.1.tx)
          (send_handshake_lem would_block b
            (ap₂ (λ o c. not (is_open o) || not c) (pick_false _ _ client ∙ there) up) room_left)
      ∙ ap (λ c. c.tx) (try_flush-would_block (target_socket b) would_block _ refl)

-- Where the ring of `n` bytes of a connected client is in order, at most half full with the data in it,
-- and has room for a handshake of eight bytes besides, and the kernel takes nothing yet: data that the
-- client is given before its handshake is sent stands before the handshake in what waits to be sent.
pub data_before_handshake :
    (n : ℕ) (poll : Polling) (a : TcpPosixAdapter) (fd : ℕ) (data_ : Bytes)
    → IsAccounted n a
    → a.is_server ≡ false
    → a.socket ≡ some fd
    → a.is_connected ≡ true
    → 0 < length data_
    → a.tx.size + length data_ ≤ n / 2
    → a.tx.size + length data_ + 8 ≤ n
    → let b = (send_bytes poll would_block a (some data_)).1 in
      let c = (send_handshake would_block b).1 in
      content c.tx ≡ (content a.tx ++ data_) ++ handshake_of (get_expected_schema_hash a)
data_before_handshake n poll a fd data_ p client there up some_bytes half fits =
    let cap = p.capacity in
    let own = handshake_of (get_expected_schema_hash a) in
    let room : takes_bytes a.tx (length data_) ≡ true =
      (takes_bytes_iff a.tx (length data_) p.ring.size_le).1
        (omega (arith, cap), omega (arith, cap)) in
    let q = queued-IsAccount n a.tx a.log data_ room p in
    let full = size-write_ring a.tx data_ in
    let room_left : takes_bytes (write_ring data_ a.tx) 8 ≡ true =
      (takes_bytes_iff (write_ring data_ a.tx) 8 q.ring.size_le).1
        (omega (arith, q.capacity, full), omega (arith, q.capacity, full)) in
    ap content (queued_before poll a fd data_ client there up some_bytes room room_left)
    ∙ (write_ring_refines (write_ring data_ a.tx) own q.ring
        (omega (arith, q.capacity, full, length-handshake_of (get_expected_schema_hash a)))).0
    ∙ ap (λ l. l ++ own) (write_ring_refines a.tx data_ p.ring (omega (arith, cap))).0
