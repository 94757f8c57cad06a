-- ===== src/Parser/Stream.antt =====
-- Packets that stand one behind the other in the ring are delivered in their order.
use bcnp.Base.{
  ℕ, zero, suc, ◌+◌, ◌%◌, ◌^◌, ◌≤◌, ◌≡◌, sym, ap, ◌∙◌, arith, true, List, [], ◌∷◌, ◌++◌,
  append_assoc, append-nil, All, length, length-append, le→ltb, if◌then◌else◌,
}
use native.Mathlib.Nat.{mod-add-mod}
use bcnp.Wire.{Bytes}
use bcnp.Message.{MessageInfo}
use bcnp.Packet.Types.{PacketView}
use bcnp.Packet.Frame.{frame, length-frame}
use bcnp.Parser.{StreamParser, packet, lookup_wire_size}
use bcnp.Parser.Loop.{behind, parse_round, parse_buffer}
use bcnp.Parser.Ring.{IsValid, content, length-content}
use bcnp.Parser.Deliver.{Arrived, parse_round_delivers}
use bcnp.Parser.Sendable.{frames, packets, IsSendable, IsPartial}
use bcnp.Parser.Wait.{parse_buffer_waits}

-- What the parser is after the packets.
pub record Streamed (p : StreamParser) (r : StreamParser) (vs : List PacketView) (rest : Bytes)
    : Type 0 where
  pub valid : IsValid r
  pub left : content r ≡ rest
  pub events : r.events ≡ p.events ++ packets vs
  pub offset : r.stream_offset ≡ (p.stream_offset + length (frames vs)) % 2 ^ 64
  pub on_packet : r.on_packet ≡ p.on_packet
  pub lookup : r.wire_size_lookup ≡ p.wire_size_lookup
  pub capacity : length r.buffer ≡ length p.buffer

module _ (registry : List MessageInfo) (wire_size : ℕ → ℕ) where
  long_ring :
      (budget : ℕ) (p : StreamParser)
      → 7 ≤ p.size
      → parse_buffer registry (suc budget) p
        ≡ behind (parse_round registry p) budget (parse_buffer registry budget)
  unfolding parse_buffer
  long_ring budget p h = rw (le→ltb p.size 7 h)

  pub lookup-same :
      (p q : StreamParser) (n : ℕ)
      → q.wire_size_lookup ≡ p.wire_size_lookup
      → lookup_wire_size registry q n ≡ lookup_wire_size registry p n
  unfolding lookup_wire_size
  lookup-same p q n e = rw e

  arrived :
      (p : StreamParser) (v : PacketView) (rest : Bytes)
      → IsValid p
      → lookup_wire_size registry p v.header.message_type ≡ wire_size v.header.message_type
      → IsSendable wire_size v
      → content p ≡ frame v.header v.payload ++ rest
      → Arrived registry p v.header v.payload rest (wire_size v.header.message_type)
  arrived p v rest valid known s e = record {
    valid = valid;
    range = s.range;
    version = s.version;
    bytes = s.bytes;
    known = known;
    wire_size_pos = s.size_pos;
    wire_size_fits = s.size_fits;
    payload_length = s.payload_length;
    front = e;
  }

  -- The packets in the ring go to the callback in the order in which they stand there, one round for
  -- each, and what follows them, if it is no more than a part of a packet, stays.
  pub parse_buffer_delivers :
      (vs : List PacketView) (rest : Bytes) (budget : ℕ) (p : StreamParser)
      → IsValid p
      → p.on_packet ≡ true
      → ((n : ℕ) → lookup_wire_size registry p n ≡ wire_size n)
      → All (IsSendable wire_size) vs
      → content p ≡ frames vs ++ rest
      → IsPartial wire_size rest
      → length vs ≤ budget
      → Streamed p (parse_buffer registry budget p).0 vs rest
  parse_buffer_delivers [] rest budget p valid on known s e short enough =
      let w = parse_buffer_waits registry wire_size budget p valid known (rw e short) in
      record {
        valid = w.valid;
        left = w.left ∙ e;
        events = w.events ∙ sym (append-nil p.events);
        offset = omega (arith, w.offset, valid.offset_fits);
        on_packet = w.on_packet;
        lookup = w.lookup;
        capacity = w.capacity;
      }
  parse_buffer_delivers (v ∷ vs) rest zero p valid on known s e short enough = absurd (omega arith)
  parse_buffer_delivers (v ∷ vs) rest (suc budget) p valid on known s e short enough =
      let front = e ∙ append_assoc (frame v.header v.payload) (frames vs) rest in
      let (q, next_is, d) =
        parse_round_delivers registry p v.header v.payload (frames vs ++ rest)
          (wire_size v.header.message_type)
          (arrived p v (frames vs ++ rest) valid (known v.header.message_type) s.0 front) in
      let later =
        parse_buffer_delivers vs rest budget q d.valid (d.on_packet ∙ on)
          (λ n. lookup-same p q n d.lookup ∙ known n) s.1 d.left short (omega arith) in
      let long : 7 ≤ p.size = omega (
        arith,
        length-content p,
        ap length front,
        length-append (frame v.header v.payload) (frames vs ++ rest),
        length-frame v.header v.payload,
      ) in
      let result : parse_buffer registry (suc budget) p ≡ parse_buffer registry budget q =
        long_ring budget p long
        ∙ ap (λ r. behind r budget (parse_buffer registry budget)) next_is in
      rw result (record {
        valid = later.valid;
        left = later.left;
        events =
            later.events
            ∙ ap (λ l. l ++ packets vs)
                (d.events ∙ ap (λ b. if b then p.events ++ (packet v ∷ []) else p.events) on)
            ∙ append_assoc p.events (packet v ∷ []) (packets vs);
        offset =
            later.offset
            ∙ ap (λ k. (k + length (frames vs)) % 2 ^ 64) d.offset
            ∙ mod-add-mod (p.stream_offset + (11 + length v.payload)) (2 ^ 64) (length (frames vs))
            ∙ ap (λ k. k % 2 ^ 64)
                (omega (
                  arith,
                  length-append (frame v.header v.payload) (frames vs),
                  length-frame v.header v.payload,
                ));
        on_packet = later.on_packet ∙ d.on_packet;
        lookup = later.lookup ∙ d.lookup;
        capacity = later.capacity ∙ d.capacity;
      })
