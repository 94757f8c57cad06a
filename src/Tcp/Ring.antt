-- ===== src/Tcp/Ring.antt =====
-- The ring of the bytes that wait to be sent: `EnqueueTx`, `DropPendingTx`, and what one `send` takes.
pub mod Content
use bcnp.Base.{
  ℕ, suc, ◌+◌, ◌-◌, ◌%◌, ◌/◌, ◌≤◌, ◌<◌, ◌≡◌, refl, sym, ap, ap₂, ◌∙◌, arith, min, Bool, true, false,
  [], ◌∷◌, length, take, drop, ltb, ◌==◌, if◌then◌else◌,
}
use bcnp.Base.Window.{window, length-window, window_mod, drop-window, take-window}
use bcnp.Base.Chunks.{
  put_all, length-put_all, put_all_same, put_chunks, put_chunks-eq-put_all, window-put_all,
  window-eq-slice,
}
use bcnp.Wire.{Bytes}
use bcnp.Tcp.{TxRing, TcpPosixAdapter, queued, took, dropped}
use native.Mathlib.Nat.{mod-eq_of_lt, mod-lt, mod-mod, mod-add-mod}

-- `bytes` behind what is there, in one or two pieces.
unfoldable pub write_ring : Bytes → TxRing → TxRing
write_ring bytes r =
    let cap = length r.buffer in
    record r {
      buffer = put_chunks cap r.buffer r.tail bytes;
      tail = (r.tail + length bytes) % cap;
      size = r.size + length bytes;
    }

-- Whether the ring takes `n` bytes.
abbrev pub takes_bytes : TxRing → ℕ → Bool
takes_bytes r n =
    let cap = length r.buffer in
    if ltb (cap / 2) r.size then false else if ltb (cap - r.size) n then false else true

unfoldable pub enqueue_tx : Bytes → TcpPosixAdapter → Bool × TcpPosixAdapter
enqueue_tx bytes a =
    if length bytes == 0
    then (true, a)
    else if takes_bytes a.tx (length bytes)
    then (true, record a { tx = write_ring bytes a.tx; log = queued bytes ∷ a.log })
    else (false, a)

unfoldable pub empty_ring : TxRing → TxRing
empty_ring r = record r { head = 0; tail = 0; size = 0 }

unfoldable pub drop_pending_tx : TcpPosixAdapter → TcpPosixAdapter
drop_pending_tx a = record a { tx = empty_ring a.tx; log = dropped ∷ a.log }

-- How many bytes one `send` is offered.
abbrev pub contiguous : TxRing → ℕ
contiguous r = min r.size (length r.buffer - r.head)

abbrev pub offered : TxRing → ℕ → Bytes
offered r n = take n (drop r.head r.buffer)

unfoldable pub advance_ring : ℕ → TxRing → TxRing
advance_ring n r = record r { head = (r.head + n) % length r.buffer; size = r.size - n }

-- `send` takes `n` bytes from the head of the ring.
unfoldable pub send_piece : ℕ → ℕ → TcpPosixAdapter → TcpPosixAdapter
send_piece fd n a = record a { tx = advance_ring n a.tx; log = took fd (offered a.tx n) ∷ a.log }
