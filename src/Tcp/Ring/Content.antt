-- ===== src/Tcp/Ring/Content.antt =====
-- The ring of the bytes that wait to be sent as the list of these bytes.
use bcnp.Base.{
  ℕ, ◌+◌, ◌-◌, ◌%◌, ◌/◌, ◌≤◌, ◌<◌, ◌≡◌, ◌↔◌, refl, sym, ap, ap₂, ◌∙◌, arith, true, [], ◌++◌, length,
  take, drop, take-append-drop,
}
use bcnp.Base.Window.{window, length-window, window_mod, drop-window, take-window}
use bcnp.Base.Chunks.{
  put_all, length-put_all, put_all_same, put_chunks-eq-put_all, window-put_all, window-eq-slice,
}
use bcnp.Wire.{Bytes}
use bcnp.Tcp.{TxRing}
use bcnp.Tcp.Ring.{write_ring, takes_bytes, empty_ring, contiguous, offered, advance_ring}
use native.Mathlib.Nat.{mod-lt, mod-mod, mod-add-mod, add_assoc}

-- The bytes that wait, oldest first.
abbrev pub content : TxRing → Bytes
content r = window (length r.buffer) 0 r.buffer r.head r.size

-- The head lies inside the buffer, the tail stands behind the last byte, and no byte is over another.
pub record IsRing (r : TxRing) : Type 0 where
  pub head_in : r.head < length r.buffer
  pub size_le : r.size ≤ length r.buffer
  pub tail_is : r.tail ≡ (r.head + r.size) % length r.buffer

pub length-content : (r : TxRing) → length (content r) ≡ r.size
length-content r = length-window (length r.buffer) 0 r.buffer r.head r.size

-- The ring takes bytes exactly if it is at most half full and they fit.
pub takes_bytes_iff :
    (r : TxRing) (n : ℕ)
    → r.size ≤ length r.buffer
    → (takes_bytes r n ≡ true) ↔ ((r.size ≤ length r.buffer / 2) × (r.size + n ≤ length r.buffer))
takes_bytes_iff r n le = (ground arith, ground arith)

written_buffer :
    (r : TxRing) (bytes : Bytes)
    → IsRing r
    → r.size + length bytes ≤ length r.buffer
    → (write_ring bytes r).buffer ≡ put_all (length r.buffer) r.buffer (r.head + r.size) bytes
unfolding write_ring
written_buffer r bytes v room =
    put_chunks-eq-put_all (length r.buffer) r.buffer r.tail bytes
      (omega (
        arith,
        v.tail_is,
        v.head_in,
        mod-lt (r.head + r.size) {m = length r.buffer} (omega (arith, v.head_in)),
      ))
      (omega arith)
    ∙ put_all_same (length r.buffer) r.buffer r.tail (r.head + r.size) bytes
        (ap (λ k. k % length r.buffer) v.tail_is ∙ mod-mod (r.head + r.size) (length r.buffer))

pub length-write_ring :
    (r : TxRing) (bytes : Bytes)
    → IsRing r
    → r.size + length bytes ≤ length r.buffer
    → length (write_ring bytes r).buffer ≡ length r.buffer
length-write_ring r bytes v room =
    ap length (written_buffer r bytes v room)
    ∙ length-put_all (length r.buffer) r.buffer (r.head + r.size) bytes

-- A write that fits puts the bytes behind those that wait.
pub write_ring_refines :
    (r : TxRing) (bytes : Bytes)
    → IsRing r
    → r.size + length bytes ≤ length r.buffer
    → (content (write_ring bytes r) ≡ content r ++ bytes) × IsRing (write_ring bytes r)
unfolding write_ring
write_ring_refines r bytes v room =
    let same_length = length-write_ring r bytes v room in
    let behind : (r.tail + length bytes) % length r.buffer
        ≡ (r.head + (r.size + length bytes)) % length r.buffer =
      ap (λ k. (k + length bytes) % length r.buffer) v.tail_is
      ∙ mod-add-mod (r.head + r.size) (length r.buffer) (length bytes)
      ∙ ap (λ k. k % length r.buffer) (add_assoc r.head r.size (length bytes)) in
    (
      ap₂ (λ k b. window k 0 b r.head (r.size + length bytes)) same_length
            (written_buffer r bytes v room)
          ∙ window-put_all (length r.buffer) 0 r.buffer r.head r.size bytes room (omega arith),
      record {
        head_in = omega (arith, v.head_in, same_length);
        size_le = omega (arith, room, same_length);
        tail_is = behind ∙ ap (λ k. (r.head + (r.size + length bytes)) % k) (sym same_length);
      },
    )

-- What `send` takes is the front of what waits, and the rest still waits.
pub advance_ring_refines :
    (r : TxRing) (n : ℕ)
    → IsRing r
    → n ≤ contiguous r
    → (content r ≡ offered r n ++ content (advance_ring n r)) × IsRing (advance_ring n r)
unfolding advance_ring
advance_ring_refines r n v le =
    let cap = length r.buffer in
    let front : take n (content r) ≡ offered r n =
      take-window cap 0 r.buffer r.head r.size n (omega arith)
      ∙ window-eq-slice cap 0 r.buffer r.head n (omega (arith, v.head_in)) (omega arith) in
    let rest : drop n (content r) ≡ window cap 0 r.buffer ((r.head + n) % cap) (r.size - n) =
      drop-window cap 0 r.buffer r.head r.size n (omega arith)
      ∙ sym (window_mod cap 0 r.buffer (r.head + n) (r.size - n)) in
    (
      sym (take-append-drop n (content r)) ∙ ap₂ ◌++◌ front rest,
      record {
        head_in = mod-lt (r.head + n) (omega (arith, v.head_in));
        size_le = omega (arith, v.size_le);
        tail_is =
            v.tail_is
            ∙ ap (λ k. k % cap)
                (let q : r.head + r.size ≡ r.head + n + (r.size - n) = omega arith in q)
            ∙ sym (mod-add-mod (r.head + n) cap (r.size - n));
      },
    )

-- An emptied ring holds nothing.
pub empty_ring-IsRing :
    (r : TxRing) → 0 < length r.buffer → (content (empty_ring r) ≡ []) × IsRing (empty_ring r)
unfolding empty_ring
empty_ring-IsRing r some_room = (refl, omega (arith, mod-lt 0 {m = length r.buffer} some_room))
