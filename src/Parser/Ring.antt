-- ===== src/Parser/Ring.antt =====
-- The ring of the parser as the list of the bytes that it holds.
use bcnp.Base.{
  ℕ, ◌+◌, ◌-◌, ◌%◌, ◌^◌, ◌≤◌, ◌<◌, ◌≡◌, refl, sym, ap, ap₂, ◌∙◌, arith, min, Bool, true, [], ◌++◌,
  length, length-replicate, take, drop, drop-all, ltb, ltb→lt, ltb→le, ◌||◌, ◌==◌, if◌then◌else◌,
  Bool-cases, inl, inr,
}
use bcnp.Base.Window.{window, length-window, window_mod, drop-window, take-window}
use bcnp.Base.Chunks.{
  put_all, length-put_all, put_all_same, put_chunks-eq-put_all, window-put_all,
  get_chunks-eq-window,
}
use bcnp.Wire.{Bytes}
use bcnp.Parser.{StreamParser, new_parser, reset, write_to_buffer, copy_out, discard}
use native.Mathlib.Nat.{mod-eq_of_lt, mod-lt, mod-mod}

-- The bytes that came in and are not parsed, oldest first.
abbrev pub content : StreamParser → Bytes
content p = window (length p.buffer) 0 p.buffer p.head p.size

-- The buffer has room for a packet without messages, the scratch buffer is as long as the ring, and
-- the head and the fill level lie inside it. The stream offset is a 64-bit word.
pub record IsValid (p : StreamParser) : Type 0 where
  pub roomy : 11 ≤ length p.buffer
  pub scratch_length : length p.decode_scratch ≡ length p.buffer
  pub head_in : p.head < length p.buffer
  pub size_le : p.size ≤ length p.buffer
  pub offset_fits : p.stream_offset < 2 ^ 64

pub length-content : (p : StreamParser) → length (content p) ≡ p.size
length-content p = length-window (length p.buffer) 0 p.buffer p.head p.size

-- The constructor makes a valid parser, whatever the requested size is.
pub new_parser-IsValid :
    (on_packet on_error : Bool) (n : ℕ) → IsValid (new_parser on_packet on_error n)
unfolding new_parser
new_parser-IsValid on_packet on_error n =
    ground (arith, length-replicate {A = ℕ} (if ltb n 11 then 11 else n) 0)

pub reset-IsValid :
    (p : StreamParser) (b : Bool) → IsValid p → IsValid (reset p b) × (content (reset p b) ≡ [])
unfolding reset
reset-IsValid p b v = ground arith

written_buffer :
    (p : StreamParser) (data_ : Bytes)
    → IsValid p
    → p.size + length data_ ≤ length p.buffer
    → (write_to_buffer p data_).buffer ≡ put_all (length p.buffer) p.buffer (p.head + p.size) data_
unfolding write_to_buffer
written_buffer p data_ v room =
    let at = (p.head + p.size) % length p.buffer in
    put_chunks-eq-put_all (length p.buffer) p.buffer at data_
      (mod-lt (p.head + p.size) (omega (arith, v.roomy))) (omega arith)
    ∙ put_all_same (length p.buffer) p.buffer at (p.head + p.size) data_
        (mod-mod (p.head + p.size) (length p.buffer))

-- A write that fits leaves the capacity.
pub length-write_to_buffer :
    (p : StreamParser) (data_ : Bytes)
    → IsValid p
    → p.size + length data_ ≤ length p.buffer
    → length (write_to_buffer p data_).buffer ≡ length p.buffer
length-write_to_buffer p data_ v room =
    ap length (written_buffer p data_ v room)
    ∙ length-put_all (length p.buffer) p.buffer (p.head + p.size) data_

-- A write that fits puts the bytes behind those that are there, and touches nothing else.
pub write_to_buffer_refines :
    (p : StreamParser) (data_ : Bytes)
    → IsValid p
    → p.size + length data_ ≤ length p.buffer
    → (content (write_to_buffer p data_) ≡ content p ++ data_) × IsValid (write_to_buffer p data_)
unfolding write_to_buffer
write_to_buffer_refines p data_ v room =
    let same_length = length-write_to_buffer p data_ v room in
    (
      ap₂ (λ k b. window k 0 b p.head (p.size + length data_)) same_length
            (written_buffer p data_ v room)
          ∙ window-put_all (length p.buffer) 0 p.buffer p.head p.size data_ room (omega arith),
      record {
        roomy = omega (arith, v.roomy, same_length);
        scratch_length = v.scratch_length ∙ sym same_length;
        head_in = omega (arith, v.head_in, same_length);
        size_le = omega (arith, room, same_length);
        offset_fits = v.offset_fits;
      },
    )

-- A read inside the fill level puts the bytes to the front of the destination.
pub copy_out_refines :
    (p : StreamParser) (offset n : ℕ) (dest : Bytes)
    → IsValid p
    → offset + n ≤ p.size
    → n ≤ length dest
    → copy_out p offset n dest ≡ take n (drop offset (content p)) ++ drop n dest
unfolding copy_out
copy_out_refines p offset n dest v inside room =
    get_chunks-eq-window (length p.buffer) 0 p.buffer ((p.head + offset) % length p.buffer) n dest
      (mod-lt (p.head + offset) (omega (arith, v.roomy))) (omega (arith, v.size_le)) (omega arith)
      room
    ∙ ap (λ l. l ++ drop n dest)
        (window_mod (length p.buffer) 0 p.buffer (p.head + offset) n
          ∙ sym (
              take-window (length p.buffer) 0 p.buffer (p.head + offset) (p.size - offset) n
                (omega arith))
          ∙ ap (take n)
              (sym (drop-window (length p.buffer) 0 p.buffer p.head p.size offset (omega arith))))

drop-content :
    (p : StreamParser) (n count : ℕ)
    → n ≡ min count p.size
    → window (length p.buffer) 0 p.buffer ((p.head + n) % length p.buffer) (p.size - n)
      ≡ drop count (content p)
drop-content p n count e =
    window_mod (length p.buffer) 0 p.buffer (p.head + n) (p.size - n)
    ∙ sym (drop-window (length p.buffer) 0 p.buffer p.head p.size n (omega arith))
    ∙ elim (Bool-cases (ltb p.size count)) [
      | inl more ↦
          let beyond = ltb→lt p.size count more in
          drop-all n (content p) (omega (arith, length-content p))
          ∙ sym (drop-all count (content p) (omega (arith, length-content p)))
      | inr inside ↦
          let within = ltb→le p.size count inside in ap (λ k. drop k (content p)) (omega arith)
    ]

-- A discard drops the oldest bytes, at most all of them, and moves the stream offset by as many.
pub discard_refines :
    (p : StreamParser) (count : ℕ)
    → IsValid p
    → (content (discard p count) ≡ drop count (content p))
      × IsValid (discard p count)
      × ((discard p count).stream_offset ≡ (p.stream_offset + min count p.size) % 2 ^ 64)
      × ((discard p count).events ≡ p.events)
unfolding discard
discard_refines p count v =
    let clamped : (if ltb p.size count then p.size else count) ≡ min count p.size = ground arith in
    elim (Bool-cases (count == 0 || p.size == 0)) [
      | inl nothing ↦
          rw nothing
            (kept nothing, v, ground (arith, mod-eq_of_lt {n = p.stream_offset} {m = 2 ^ 64}), refl)
      | inr some_left ↦ rw some_left (
        drop-content p (if ltb p.size count then p.size else count) count clamped,
        record {
          roomy = v.roomy;
          scratch_length = v.scratch_length;
          head_in =
              mod-lt (p.head + (if ltb p.size count then p.size else count))
                (omega (arith, v.roomy));
          size_le = omega (arith, v.size_le);
          offset_fits = omega arith;
        },
        ap (λ n. (p.stream_offset + n) % 2 ^ 64) clamped,
        refl,
      )
    ]
  where
    kept : (count == 0 || p.size == 0) ≡ true → content p ≡ drop count (content p)
    kept h = ground (arith, drop-all count (content p), length-content p)
