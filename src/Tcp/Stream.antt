-- ===== src/Tcp/Stream.antt =====
-- What the ring of the adapter does over time: no byte is lost, doubled or reordered between
-- `EnqueueTx` and `send`, unless the ring is dropped.
use bcnp.Base.{
  ℕ, ◌≤◌, ◌<◌, ◌≡◌, refl, sym, ap, ◌∙◌, arith, true, List, [], ◌∷◌, ◌++◌, append_assoc, length,
  length-replicate, replicate, Bool, Option,
}
use bcnp.Wire.{Bytes}
use bcnp.Tcp.{
  TcpPosixAdapter, Connecting, TxRing, Event, opened, closed, queued, took, dropped, lost, heard,
}
use bcnp.Tcp.Ring.{
  takes_bytes, write_ring, contiguous, offered, advance_ring, send_piece, empty_ring,
  drop_pending_tx,
}
use bcnp.Tcp.Ring.Content.{
  content, IsRing, takes_bytes_iff, length-write_ring, write_ring_refines, advance_ring_refines,
  empty_ring-IsRing,
}
use bcnp.Tcp.Invariant.{Invariant}
use bcnp.Tcp.Invariant.Starting.{new_adapter-kept}
use bcnp.Tcp.Session.{blank, new_adapter}
use native.Mathlib.Nat.{mod-eq_of_lt}
use bcnp.Tcp.Calls.{Call, run, run-kept}

-- What went into the ring since it was last dropped.
abbrev pub queued_bytes : List Event → Bytes
queued_bytes [] = []
queued_bytes (queued bytes ∷ es) = queued_bytes es ++ bytes
queued_bytes (dropped ∷ es) = []
queued_bytes (opened fd ∷ es) = queued_bytes es
queued_bytes (closed fd ∷ es) = queued_bytes es
queued_bytes (took fd bytes ∷ es) = queued_bytes es
queued_bytes (lost ∷ es) = queued_bytes es
queued_bytes (heard got up ∷ es) = queued_bytes es

-- What `send` took since the ring was last dropped.
abbrev pub taken_bytes : List Event → Bytes
taken_bytes [] = []
taken_bytes (took fd bytes ∷ es) = taken_bytes es ++ bytes
taken_bytes (dropped ∷ es) = []
taken_bytes (opened fd ∷ es) = taken_bytes es
taken_bytes (closed fd ∷ es) = taken_bytes es
taken_bytes (queued bytes ∷ es) = taken_bytes es
taken_bytes (lost ∷ es) = taken_bytes es
taken_bytes (heard got up ∷ es) = taken_bytes es

-- The ring of `n` bytes is in order, and holds what is queued and not taken.
pub record IsAccount (n : ℕ) (r : TxRing) (log : List Event) : Type 0 where
  pub capacity : length r.buffer ≡ n
  pub ring : IsRing r
  pub account : queued_bytes log ≡ taken_bytes log ++ content r

abbrev pub IsAccounted : ℕ → TcpPosixAdapter → Type 0
IsAccounted n a = IsAccount n a.tx a.log

same :
    (n : ℕ) (r : TxRing) (log log' : List Event)
    → queued_bytes log' ≡ queued_bytes log
    → taken_bytes log' ≡ taken_bytes log
    → IsAccount n r log
    → IsAccount n r log'
same n r log log' q t p = record {
  capacity = p.capacity;
  ring = p.ring;
  account = q ∙ p.account ∙ ap (λ l. l ++ content r) (sym t);
}

pub queued-IsAccount :
    (n : ℕ) (r : TxRing) (log : List Event) (bytes : Bytes)
    → takes_bytes r (length bytes) ≡ true
    → IsAccount n r log
    → IsAccount n (write_ring bytes r) (queued bytes ∷ log)
queued-IsAccount n r log bytes room p =
    let fits = ((takes_bytes_iff r (length bytes) p.ring.size_le).0 room).1 in
    let (behind, ring) = write_ring_refines r bytes p.ring fits in
    record {
      capacity = length-write_ring r bytes p.ring fits ∙ p.capacity;
      ring = ring;
      account =
          ap (λ l. l ++ bytes) p.account
          ∙ append_assoc (taken_bytes log) (content r) bytes
          ∙ ap (λ l. taken_bytes log ++ l) (sym behind);
    }

taken-IsAccount :
    (n : ℕ) (a : TcpPosixAdapter) (fd k : ℕ)
    → k ≤ contiguous a.tx
    → IsAccounted n a
    → IsAccounted n (send_piece fd k a)
unfolding send_piece advance_ring
taken-IsAccount n a fd k le p =
    let (front, ring) = advance_ring_refines a.tx k p.ring le in
    record {
      capacity = p.capacity;
      ring = ring;
      account =
          p.account
          ∙ ap (λ l. taken_bytes a.log ++ l) front
          ∙ sym (append_assoc (taken_bytes a.log) (offered a.tx k) (content (advance_ring k a.tx)));
    }

dropped-IsAccount :
    (n : ℕ) (a : TcpPosixAdapter) → IsAccounted n a → IsAccounted n (drop_pending_tx a)
unfolding drop_pending_tx empty_ring
dropped-IsAccount n a p =
    let (none_left, ring) = empty_ring-IsRing a.tx (omega (arith, p.ring.head_in)) in
    record { capacity = p.capacity; ring = ring; account = sym none_left }

pub accounted : (n : ℕ) → Invariant (IsAccounted n)
accounted n = record {
  link = record {
    sockets = record {
      tuned = λ a c d t u p. p;
      set_up = λ a s v b p. p;
      opened_base = λ a fd e p. same n a.tx a.log _ refl refl p;
      closed_base = λ a fd e p. same n a.tx a.log _ refl refl p;
    };
    opened_client = λ a fd e p. same n a.tx a.log _ refl refl p;
    closed_client = λ a fd e p. same n a.tx a.log _ refl refl p;
    refused_client = λ a fd p. same n a.tx a.log _ refl refl p;
    queued = λ a bytes room p. queued-IsAccount n a.tx a.log bytes room p;
    taken = taken-IsAccount n;
    dropped = dropped-IsAccount n;
    lost = λ a p. same n a.tx a.log _ refl refl p;
    marked = λ a p. p;
  };
  heard_data = λ a got e p. same n a.tx a.log _ refl refl p;
  heard_handshake = λ a got e p. same n a.tx a.log _ refl refl p;
}

blank-IsAccounted : (n : ℕ) → 0 < n → IsAccounted n (blank n)
blank-IsAccounted n some_room =
    let len = length-replicate {A = ℕ} n 0 in
    record {
      capacity = len;
      ring = record {
        head_in = omega (arith, len);
        size_le = omega (arith, len);
        tail_is = sym (mod-eq_of_lt {n = 0} {m = length (replicate n 0)} (omega (arith, len)));
      };
      account = refl;
    }

module _ {ℓ} {Text : Type ℓ} (inet_pton : Text → Option ℕ) (io : Connecting)
    (bind_ok listen_ok : Bool) (n listen_port : ℕ) (target_ip : Option Text) (target_port : ℕ)
    (calls : List Call) where
  pub run-IsAccounted :
      0 < n
      → IsAccounted n (
          run
            (new_adapter inet_pton io bind_ok listen_ok n listen_port target_ip target_port)
            calls)
  run-IsAccounted some_room = run-kept (IsAccounted n) (accounted n) _ calls (
      new_adapter-kept (IsAccounted n) (accounted n).link.sockets inet_pton io bind_ok listen_ok n
        listen_port target_ip target_port (blank-IsAccounted n some_room))

  -- After every history of a new adapter with a ring of at least one byte, whatever the system calls
  -- answered: since the ring was last dropped, what `send` took, followed by what waits in the ring,
  -- is what was put into it, in order; and the ring has its capacity and is in order.
  pub run_accounts :
      0 < n
      → let a =
          run
            (new_adapter inet_pton io bind_ok listen_ok n listen_port target_ip target_port)
            calls in
        (queued_bytes a.log ≡ taken_bytes a.log ++ content a.tx)
        × IsRing a.tx
        × (length a.tx.buffer ≡ n)
  run_accounts some_room = let p = run-IsAccounted some_room in (p.account, p.ring, p.capacity)
