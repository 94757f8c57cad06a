-- ===== src/Tcp/Flush.antt =====
-- A flush that the kernel serves empties the ring.
use bcnp.Base.{
  ℕ, suc, ◌-◌, ◌≤◌, ◌<◌, ◌≡◌, refl, sym, ap, ap₂, ◌∙◌, arith, min, true, ◌&&◌, List, [], ◌∷◌, ◌++◌,
  append-nil, append_assoc, if◌then◌else◌, ltb, lt→ltb, ltb→le, ltb→lt, length, Bool-cases, inl,
  inr,
}
use bcnp.Base.Window.{window}
use bcnp.Tcp.{TcpPosixAdapter, TxRing, Event, SendAnswers, takes, interrupted, would_block}
use bcnp.Tcp.Ring.{contiguous, offered, advance_ring, send_piece}
use bcnp.Tcp.Ring.Content.{content, IsRing, advance_ring_refines}
use bcnp.Tcp.Connection.{flush_loop}
use bcnp.Tcp.Stream.{taken_bytes}

-- A `send` that takes something, or is interrupted.
pub data Answer : Type 0 where
  room : ℕ → Answer
  signal : Answer

abbrev pub serve : List Answer → SendAnswers
serve [] = would_block
serve (room n ∷ ns) = takes n (serve ns)
serve (signal ∷ ns) = interrupted (serve ns)

-- How many of the answers take something.
abbrev pub count_rooms : List Answer → ℕ
count_rooms [] = 0
count_rooms (room n ∷ ns) = suc (count_rooms ns)
count_rooms (signal ∷ ns) = count_rooms ns

-- A flush that is not stopped changes the ring and the log and nothing else.
abbrev with_tx : TcpPosixAdapter → TxRing → List Event → TcpPosixAdapter
with_tx a r log = record a { tx = r; log = log }

flush_loop_step :
    (fd n : ℕ) (rest : SendAnswers) (a : TcpPosixAdapter)
    → 0 < a.tx.size
    → a.is_connected ≡ true
    → flush_loop fd (takes n rest) a
      ≡ flush_loop fd rest (send_piece fd (min (suc n) (contiguous a.tx)) a)
unfolding flush_loop
flush_loop_step fd n rest a some_left up =
    ap₂
      (λ x y.
        if x && y then flush_loop fd rest (send_piece fd (min (suc n) (contiguous a.tx)) a) else a)
      (lt→ltb 0 a.tx.size some_left) up

flush_loop_signal :
    (fd : ℕ) (rest : SendAnswers) (a : TcpPosixAdapter)
    → 0 < a.tx.size
    → a.is_connected ≡ true
    → flush_loop fd (interrupted rest) a ≡ flush_loop fd rest a
unfolding flush_loop
flush_loop_signal fd rest a some_left up =
    ap₂ (λ x y. if x && y then flush_loop fd rest a else a) (lt→ltb 0 a.tx.size some_left) up

-- Nothing is sent from an empty ring.
flush_loop_empty :
    (fd : ℕ) (ns : List Answer) (a : TcpPosixAdapter)
    → a.tx.size ≡ 0
    → flush_loop fd (serve ns) a ≡ a
unfolding flush_loop
flush_loop_empty fd [] a none_left = refl
flush_loop_empty fd (room n ∷ ns) a none_left =
    ap
      (λ k.
        if ltb 0 k && a.is_connected
        then flush_loop fd (serve ns) (send_piece fd (min (suc n) (contiguous a.tx)) a)
        else a)
      none_left
flush_loop_empty fd (signal ∷ ns) a none_left =
    ap (λ k. if ltb 0 k && a.is_connected then flush_loop fd (serve ns) a else a) none_left

-- What a flush that empties the ring leaves: everything was taken in order, and nothing else of the
-- adapter has changed.
pub record IsDrained (a b : TcpPosixAdapter) : Type 0 where
  pub none_left : content b.tx ≡ []
  pub taken : taken_bytes b.log ≡ taken_bytes a.log ++ content a.tx
  pub others : b ≡ record a { tx = b.tx; log = b.log }

empty-IsDrained : (a : TcpPosixAdapter) → a.tx.size ≡ 0 → IsDrained a a
empty-IsDrained a none_left =
    let empty : content a.tx ≡ [] =
      ap (λ k. window (length a.tx.buffer) 0 a.tx.buffer a.tx.head k) none_left in
    record {
      none_left = empty;
      taken = sym (append-nil (taken_bytes a.log)) ∙ ap (λ l. taken_bytes a.log ++ l) (sym empty);
      others = refl;
    }

module _ (fd : ℕ) (a : TcpPosixAdapter) (v : IsRing a.tx) (k : ℕ) (le : k ≤ contiguous a.tx) where
  piece-IsDrained : {b : TcpPosixAdapter} → IsDrained (send_piece fd k a) b → IsDrained a b
  unfolding send_piece
  piece-IsDrained d = record {
    none_left = d.none_left;
    taken =
        d.taken
        ∙ append_assoc (taken_bytes a.log) (offered a.tx k) (content (advance_ring k a.tx))
        ∙ ap (λ l. taken_bytes a.log ++ l) (sym (advance_ring_refines a.tx k v le).0);
    others = d.others;
  }

  piece-IsRing : IsRing (send_piece fd k a).tx
  unfolding send_piece
  piece-IsRing = (advance_ring_refines a.tx k v le).1

  piece-size : (send_piece fd k a).tx.size ≡ a.tx.size - k
  unfolding send_piece advance_ring
  piece-size = refl

  piece-is_connected : (send_piece fd k a).is_connected ≡ a.is_connected
  unfolding send_piece
  piece-is_connected = refl

-- An empty ring stays as it is, and another one is left to `go`.
split_empty :
    (fd : ℕ) (ns : List Answer) (a : TcpPosixAdapter)
    → (0 < a.tx.size → IsDrained a (flush_loop fd (serve ns) a))
    → IsDrained a (flush_loop fd (serve ns) a)
split_empty fd ns a go = elim (Bool-cases (ltb 0 a.tx.size)) [
  | inl some_left ↦ go (ltb→lt 0 a.tx.size some_left)
  | inr empty ↦
      let none_left : a.tx.size ≡ 0 = omega (arith, ltb→le 0 a.tx.size empty) in
      rw (flush_loop_empty fd ns a none_left) (empty-IsDrained a none_left)
]

-- If as many calls of `send` take something as there are bytes in the ring, however few each of them
-- takes and however many are interrupted, the ring of a connected adapter is empty after the flush,
-- what was in it is taken in order, and nothing but the ring has changed.
pub flush_drains :
    (fd : ℕ) (ns : List Answer) (a : TcpPosixAdapter)
    → IsRing a.tx
    → a.is_connected ≡ true
    → a.tx.size ≤ count_rooms ns
    → IsDrained a (flush_loop fd (serve ns) a)
flush_drains fd [] a v up enough = split_empty fd [] a (λ some_left. absurd (omega arith))
flush_drains fd (signal ∷ ns) a v up enough = split_empty fd (signal ∷ ns) a (λ some_left.
    rw (flush_loop_signal fd (serve ns) a some_left up) (flush_drains fd ns a v up enough))
flush_drains fd (room n ∷ ns) a v up enough = split_empty fd (room n ∷ ns) a (λ some_left.
    let k = min (suc n) (contiguous a.tx) in
    let le : k ≤ contiguous a.tx = omega arith in
    rw (flush_loop_step fd n (serve ns) a some_left up) (
      piece-IsDrained fd a v k le (
        flush_drains fd ns (send_piece fd k a) (piece-IsRing fd a v k le)
          (piece-is_connected fd a v k le ∙ up)
          (omega (arith, enough, some_left, v.head_in, piece-size fd a v k le)))))
