-- ===== src/Tcp/Loss.antt =====
-- What a connection leaves behind when it ends.
use bcnp.Base.{
  ℕ, ◌<◌, ◌==◌, ◌/=◌, ◌≡◌, refl, ap, ap₂, ◌∙◌, arith, Bool, true, false, not, ◌&&◌, ◌||◌, ltb, none,
  some, [], ◌∷◌, if◌then◌else◌, length, Bool-cases, inl, inr,
}
use bcnp.Wire.{Bytes, u32_bytes, store_u32}
use bcnp.Handshake.{encode_handshake, encode_handshake_with_hash}
use bcnp.Handshake.Laws.{handshake_of}
use bcnp.Tcp.{TcpPosixAdapter, Shake, TxRing, Connecting, SendAnswers, broken, closed, queued}
use bcnp.Tcp.Ring.{empty_ring, drop_pending_tx, enqueue_tx, takes_bytes, write_ring}
use bcnp.Tcp.Ring.Content.{content}
use bcnp.Tcp.Connection.{
  is_open, forget_shake, handle_connection_loss, close_client, flush_loop, try_flush_tx_buffer,
}
use bcnp.Tcp.Session.{own_handshake, send_handshake, target_socket, get_expected_schema_hash}
use bcnp.Tcp.Invariant.{SocketInvariant}
use bcnp.Base.Choices.{choose, pick_true, pick_false, pick_some}
use bcnp.Tcp.Invariant.Connecting.{close_socket-kept, begin_client_connect-kept}

-- The handshake and the ring are not touched by what opens and closes sockets.
untouched : (s : Shake) (r : TxRing) → SocketInvariant (λ b. (b.shake ≡ s) × (b.tx ≡ r))
untouched s r = record {
  tuned = λ a c d t u p. p;
  set_up = λ a v w b p. p;
  opened_base = λ a fd e p. p;
  closed_base = λ a fd e p. p;
}

close_client-untouched :
    (a : TcpPosixAdapter) → ((close_client a).shake ≡ a.shake) × ((close_client a).tx ≡ a.tx)
unfolding close_client
close_client-untouched a =
    elim a.client_socket
      as (λ o.
        let c = elim o as (λ x. TcpPosixAdapter) [
          | none ↦ a
          | some fd ↦ record a { client_socket = none; log = closed fd ∷ a.log }
        ] in
        (c.shake ≡ a.shake) × (c.tx ≡ a.tx)) [ none ↦ (refl, refl) | some fd ↦ (refl, refl) ]

-- A connection loss forgets the handshake and drops the ring, whatever becomes of the new connection.
pub loss_forgets :
    (io : Connecting) (a : TcpPosixAdapter)
    → ((handle_connection_loss io a).shake ≡ forget_shake a.shake)
      × ((handle_connection_loss io a).tx ≡ empty_ring a.tx)
unfolding handle_connection_loss drop_pending_tx
loss_forgets io a =
    let s = forget_shake a.shake in
    let r = empty_ring a.tx in
    let P : TcpPosixAdapter → Type 0 = (λ b. (b.shake ≡ s) × (b.tx ≡ r)) in
    choose P a.is_server _ _ (λ server. close_client-untouched _)
      (λ client.
        begin_client_connect-kept P (untouched s r) true io _
          (close_socket-kept P (untouched s r) _ (refl, refl)))

pub own_handshake_is :
    (a : TcpPosixAdapter) → own_handshake a ≡ some (handshake_of (get_expected_schema_hash a))
unfolding own_handshake get_expected_schema_hash encode_handshake encode_handshake_with_hash
    store_u32 u32_bytes
own_handshake_is a = elim (Bool-cases (a.expected_schema_hash /= 0)) [
  | inl set_ ↦ rw set_ refl
  | inr not_set ↦ rw not_set refl
]

pub enqueue_tx_room :
    (bytes : Bytes) (a : TcpPosixAdapter)
    → 0 < length bytes
    → takes_bytes a.tx (length bytes) ≡ true
    → enqueue_tx bytes a
      ≡ (true, record a { tx = write_ring bytes a.tx; log = queued bytes ∷ a.log })
unfolding enqueue_tx
enqueue_tx_room bytes a some_bytes room =
    pick_false {b = length bytes == 0} _ _ (ground arith) ∙ pick_true _ _ room

-- A connected adapter whose ring has room queues its handshake and flushes.
pub send_handshake_lem :
    (answers : SendAnswers) (a : TcpPosixAdapter)
    → not (is_open (target_socket a)) || not a.is_connected ≡ false
    → takes_bytes a.tx 8 ≡ true
    → let own = handshake_of (get_expected_schema_hash a) in
      let b = record a { tx = write_ring own a.tx; log = queued own ∷ a.log } in
      let c = try_flush_tx_buffer (target_socket a) answers b in
      send_handshake answers a ≡ (true, record c { shake = record c.shake { sent = true } })
unfolding send_handshake u32_bytes
send_handshake_lem answers a talks room =
    let own = handshake_of (get_expected_schema_hash a) in
    pick_false _ _ talks
    ∙ pick_some _ _ own (own_handshake_is a)
    ∙ ap
        (λ (r : Bool × TcpPosixAdapter).
          let c = try_flush_tx_buffer (target_socket a) answers r.1 in
          if not r.0
          then (false, r.1)
          else (true, record c { shake = record c.shake { sent = true } }))
        (enqueue_tx_room own a (omega arith) room)

-- If the first `send` of the flush of its handshake meets a broken connection, a connected adapter whose
-- ring has room for the handshake answers true, and has dropped it: the ring is empty, and the
-- handshake is neither complete nor valid, with nothing of the peer's received, but counts as sent.
pub lost_handshake_counts :
    (io : Connecting) (a : TcpPosixAdapter) (fd : ℕ)
    → target_socket a ≡ some fd
    → a.is_connected ≡ true
    → takes_bytes a.tx 8 ≡ true
    → let (ok, b) = send_handshake (broken io) a in
      (ok ≡ true)
      × (content b.tx ≡ [])
      × (b.shake ≡ record a.shake {
        complete = false;
        sent = true;
        validated = false;
        received = 0;
        remote_schema_hash = 0;
      })
unfolding forget_shake flush_loop drop_pending_tx write_ring empty_ring try_flush_tx_buffer
    u32_bytes
lost_handshake_counts io a fd target up room =
    let own = handshake_of (get_expected_schema_hash a) in
    let b = record a { tx = write_ring own a.tx; log = queued own ∷ a.log } in
    let flushed : try_flush_tx_buffer (target_socket a) (broken io) b
        ≡ drop_pending_tx (handle_connection_loss io b) =
      ap (λ o. try_flush_tx_buffer o (broken io) b) target
      ∙ pick_true {b = ltb 0 b.tx.size && a.is_connected} _ _ (ground (arith, up)) in
    let sent =
      send_handshake_lem (broken io) a (ap₂ (λ o c. not (is_open o) || not c) target up) room
      ∙ ap (λ (c : TcpPosixAdapter). (true, record c { shake = record c.shake { sent = true } }))
          flushed in
    (
      ap (λ r. r.0) sent,
      ap (λ r. content r.1.tx) sent,
      ap (λ r. r.1.shake) sent ∙ ap (λ (s : Shake). record s { sent = true }) (loss_forgets io b).0,
    )
