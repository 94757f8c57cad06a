-- ===== src/Parser/Account.antt =====
-- No byte is lost by the loop of `ParseBuffer`: what it takes from the ring is counted in the offset.
use bcnp.Base.{
  ℕ, zero, suc, ◌+◌, ◌-◌, ◌%◌, ◌^◌, ◌≡◌, refl, sym, ap, ◌∙◌, arith, min, Option-cases, List, [],
  ◌++◌, append_assoc, length, length-append, length-take, take-append-drop, take, drop, ltb, ◌||◌,
  ◌==◌, ◌/=◌, Bool-cases, inl, inr, write_at, length-write_at,
}
use bcnp.Base.Window.{window}
use bcnp.Wire.{Bytes, byte_at, load_u16}
use bcnp.Message.{MessageInfo}
use bcnp.Packet.Types.{PacketView, PacketError, DecodeViewResult, packet_size}
use bcnp.Parser.{StreamParser, emit_packet, emit_error, copy_out, discard, lookup_wire_size}
use bcnp.Parser.Loop.{
  Round, stopped, next, is_truncated, is_poison, reject, conclude, parse_frame, parse_round, behind,
  parse_buffer,
}
use bcnp.Parser.Ring.{IsValid, content, length-content, discard_refines}
use native.Mathlib.Nat.{mod-add-mod, mod-eq_of_lt}

-- The ring and the offset of the two are the same.
pub record Same (p q : StreamParser) : Type 0 where
  pub valid : IsValid q
  pub buffer : q.buffer ≡ p.buffer
  pub head : q.head ≡ p.head
  pub size : q.size ≡ p.size
  pub offset : q.stream_offset ≡ p.stream_offset

Same-trans : {p q r : StreamParser} → Same p q → Same q r → Same p r
Same-trans a b = record {
  valid = b.valid;
  buffer = b.buffer ∙ a.buffer;
  head = b.head ∙ a.head;
  size = b.size ∙ a.size;
  offset = b.offset ∙ a.offset;
}

pub emit_error-Same :
    (p : StreamParser) (code : PacketError) (n : ℕ) → IsValid p → Same p (emit_error p code n)
unfolding emit_error
emit_error-Same p code n v = ground arith

pub accept-Same :
    (p : StreamParser) (view : PacketView)
    → IsValid p
    → Same p (record (emit_packet p view) { consecutive_errors = 0 })
unfolding emit_packet
accept-Same p view v = ground arith

pub length-copy_out :
    (p : StreamParser) (offset n : ℕ) (dest : Bytes)
    → length (copy_out p offset n dest) ≡ length dest
unfolding copy_out
length-copy_out p offset n dest = elim (Bool-cases (ltb 0 (n - k))) [
  | inl round ↦ rw round (length-write_at _ k (take (n - k) p.buffer) ∙ first)
  | inr straight ↦ rw straight first
]
  where
    s : ℕ
    s = (p.head + offset) % length p.buffer

    k : ℕ
    k = min n (length p.buffer - s)

    first : length (write_at dest 0 (take k (drop s p.buffer))) ≡ length dest
    first = length-write_at dest 0 (take k (drop s p.buffer))

pub scratch-Same :
    (p : StreamParser) (n : ℕ)
    → IsValid p
    → Same p (record p { decode_scratch = copy_out p 0 n p.decode_scratch })
scratch-Same p n v = ground (arith, length-copy_out p 0 n p.decode_scratch)

-- A round stops, or drops some bytes, and does nothing else to the ring.
pub data Ends (p : StreamParser) : Round → Type 0 where
  stops : (q : StreamParser) → Same p q → Ends p (stopped q)
  drops : (q : StreamParser) (count : ℕ) → Same p q → Ends p (next (discard q count))

Ends-trans : {p q : StreamParser} {r : Round} → Same p q → Ends q r → Ends p r
Ends-trans a (stops s b) = stops s (Same-trans a b)
Ends-trans a (drops s n b) = drops s n (Same-trans a b)

reject-Ends : (p : StreamParser) (code : PacketError) (n : ℕ) → IsValid p → Ends p (reject p code n)
reject-Ends p code n v =
    drops (emit_error p code p.stream_offset) n (emit_error-Same p code p.stream_offset v)

conclude-Ends : (p : StreamParser) (r : DecodeViewResult) → IsValid p → Ends p (conclude p r)
unfolding conclude
conclude-Ends p r v = elim (Bool-cases (is_truncated r.error)) [
  | inl cut ↦
      rw cut
        (stops p (record { valid = v; buffer = refl; head = refl; size = refl; offset = refl }))
  | inr whole ↦ rw whole (elim (Option-cases r.view) [
    | inl e ↦ rw e (elim (Bool-cases (is_poison r.error)) [
      | inl poison ↦ rw poison (reject-Ends p r.error 1 v)
      | inr other ↦ rw other (reject-Ends p r.error _ v)
    ])
    | inr (view, e) ↦
        rw e
          (drops (record (emit_packet p view) { consecutive_errors = 0 }) _ (accept-Same p view v))
  ])
]

module _ (registry : List MessageInfo) where
  parse_frame-Ends : (p : StreamParser) → IsValid p → Ends p (parse_frame registry p)
  unfolding parse_frame
  parse_frame-Ends p v =
      let same = scratch-Same p available v in
      elim (Bool-cases (wire_size == 0)) [
        | inl unknown ↦ rw unknown (reject-Ends p _ 1 v)
        | inr known ↦ rw known (elim (Bool-cases (ltb 65535 message_count)) [
          | inl many ↦ rw many (reject-Ends p _ 1 v)
          | inr few ↦ rw few (Ends-trans same (conclude-Ends _ _ same.valid))
        ])
      ]
    where
      message_count : ℕ
      message_count = load_u16 p.decode_scratch 5

      wire_size : ℕ
      wire_size = lookup_wire_size registry p (load_u16 p.decode_scratch 3)

      available : ℕ
      available = min (packet_size message_count wire_size) p.size

  pub parse_round-Ends : (p : StreamParser) → IsValid p → Ends p (parse_round registry p)
  unfolding parse_round
  parse_round-Ends p v =
      let same = scratch-Same p 7 v in
      elim (Bool-cases (
        byte_at (copy_out p 0 7 p.decode_scratch) 0 /= 3
        || byte_at (copy_out p 0 7 p.decode_scratch) 1 /= 2)) [
          | inl other ↦ rw other (Ends-trans same (reject-Ends _ _ _ same.valid))
          | inr version ↦ rw version (Ends-trans same (parse_frame-Ends _ same.valid))
        ]

-- What a run has taken from the ring: the bytes, and the offset that counts them.
pub record Advanced (p q : StreamParser) : Type 0 where
  pub valid : IsValid q
  pub gone : Bytes
  pub split : content p ≡ gone ++ content q
  pub offset : q.stream_offset ≡ (p.stream_offset + length gone) % 2 ^ 64
  pub capacity : length q.buffer ≡ length p.buffer

Advanced-trans : {p q r : StreamParser} → Advanced p q → Advanced q r → Advanced p r
Advanced-trans {p} {q} {r} a b = record {
  valid = b.valid;
  gone = a.gone ++ b.gone;
  split = a.split ∙ ap (λ l. a.gone ++ l) b.split ∙ sym (append_assoc a.gone b.gone (content r));
  offset =
      b.offset
      ∙ ap (λ k. (k + length b.gone) % 2 ^ 64) a.offset
      ∙ mod-add-mod (p.stream_offset + length a.gone) (2 ^ 64) (length b.gone)
      ∙ ap (λ k. k % 2 ^ 64) (omega (arith, length-append a.gone b.gone));
  capacity = b.capacity ∙ a.capacity;
}

pub content-Same : {p q : StreamParser} → Same p q → content q ≡ content p
content-Same s i = window (length (s.buffer i)) 0 (s.buffer i) (s.head i) (s.size i)

Same-Advanced : {p q : StreamParser} → IsValid p → Same p q → Advanced p q
Same-Advanced {p} {q} v s = record {
  valid = s.valid;
  gone = [];
  split = sym (content-Same s);
  offset = omega (arith, s.offset, mod-eq_of_lt {n = p.stream_offset} {m = 2 ^ 64} v.offset_fits);
  capacity = ap length s.buffer;
}

discard-Advanced : (p : StreamParser) (count : ℕ) → IsValid p → Advanced p (discard p count)
discard-Advanced p count v =
    let d = discard_refines p count v in
    record {
      valid = d.1;
      gone = take count (content p);
      split =
          sym (take-append-drop count (content p))
          ∙ ap (λ l. take count (content p) ++ l) (sym d.0);
      offset =
          d.2
          ∙ ap (λ k. (p.stream_offset + k) % 2 ^ 64)
              (omega (arith, length-take count (content p), length-content p));
      capacity = capacity_kept;
    }
  where
    capacity_kept : length (discard p count).buffer ≡ length p.buffer
    capacity_kept = unfold discard in (ground arith)

module _ (registry : List MessageInfo) where
  budget_step :
      (n : ℕ) (p : StreamParser) (r : Round)
      → IsValid p
      → Ends p r
      → ((q : StreamParser) → IsValid q → Advanced q (parse_buffer registry n q).0)
      → Advanced p (behind r n (parse_buffer registry n)).0
  budget_step n p _ v (stops q same) later = Same-Advanced v same
  budget_step n p _ v (drops q count same) later =
      let dropped = discard-Advanced q count same.valid in
      Advanced-trans (Same-Advanced v same)
        (Advanced-trans dropped (later (discard q count) dropped.valid))

  -- A run of the parser on a valid state ends in one, the bytes that it has taken stood at the front
  -- of the ring, what is left stood behind them, and the stream offset has moved by their number.
  pub parse_buffer_accounts :
      (budget : ℕ) (p : StreamParser) → IsValid p → Advanced p (parse_buffer registry budget p).0
  unfolding parse_buffer
  parse_buffer_accounts zero p v =
      Same-Advanced v (record { valid = v; buffer = refl; head = refl; size = refl; offset = refl })
  parse_buffer_accounts (suc n) p v = elim (Bool-cases (ltb p.size 7)) [
    | inl short ↦ rw short (
        Same-Advanced v
          (record { valid = v; buffer = refl; head = refl; size = refl; offset = refl }))
    | inr enough ↦ rw enough (
        budget_step n p (parse_round registry p) v (parse_round-Ends registry p v)
          (parse_buffer_accounts n))
  ]
