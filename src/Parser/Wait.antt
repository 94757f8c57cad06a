-- ===== src/Parser/Wait.antt =====
-- The beginning of a packet stays in the ring until the rest of it comes.
use native.Mathlib.Decide.{dec_lt}
use bcnp.Base.{
  ℕ, zero, suc, ◌≤◌, ◌<◌, ◌≡◌, refl, sym, ap, ◌∙◌, arith, List, [], ◌++◌, append-nil, length,
  length-append, take, drop, take-all, take-append-drop, append_assoc, take-append_left, lt→ltb,
  le→ltb, inl, inr,
}
use bcnp.Wire.{Bytes}
use bcnp.Message.{MessageInfo}
use bcnp.Packet.Types.{PacketHeader, packet_size, truncated}
use bcnp.Packet.Decode.{parse_header, fail, decode_packet_view_with_size}
use bcnp.Packet.Frame.{header_bytes, frame, length-frame, sizes_fit, parse_header-header_bytes}
use bcnp.Packet.Accept.{IsSupported}
use bcnp.Parser.{StreamParser, copy_out, lookup_wire_size}
use bcnp.Parser.Loop.{stopped, conclude, parse_round, parse_buffer}
use bcnp.Parser.Ring.{IsValid, content, length-content, copy_out_refines}
use bcnp.Parser.Account.{content-Same, scratch-Same, length-copy_out}
use bcnp.Parser.Rounds.{header_front, parse_frame_known, parse_round_version}
use bcnp.Parser.Sendable.{Begun, IsPartial}

-- Only the scratch buffer differs.
pub record Waited (p q : StreamParser) : Type 0 where
  pub valid : IsValid q
  pub left : content q ≡ content p
  pub events : q.events ≡ p.events
  pub offset : q.stream_offset ≡ p.stream_offset
  pub on_packet : q.on_packet ≡ p.on_packet
  pub lookup : q.wire_size_lookup ≡ p.wire_size_lookup
  pub capacity : length q.buffer ≡ length p.buffer

pub Waited-self : (p : StreamParser) → IsValid p → Waited p p
Waited-self p v = record {
  valid = v;
  left = refl;
  events = refl;
  offset = refl;
  on_packet = refl;
  lookup = refl;
  capacity = refl;
}

conclude_truncated : (p : StreamParser) → conclude p (fail truncated 0) ≡ stopped p
unfolding conclude
conclude_truncated p = refl

-- The guards up to the size.
decode_short :
    (bytes : Bytes) (size wire_size : ℕ) (h : PacketHeader)
    → parse_header bytes ≡ h
    → IsSupported h
    → h.message_count ≤ 65535
    → 7 ≤ size
    → size < packet_size h.message_count wire_size
    → decode_packet_view_with_size bytes size wire_size ≡ fail truncated 0
unfolding decode_packet_view_with_size
decode_short bytes size w h e v few h7 short = ground (arith, e)

module _ (registry : List MessageInfo) (wire_size : ℕ → ℕ) where
  module _ (p : StreamParser) (v : IsValid p)
      (known : (n : ℕ) → lookup_wire_size registry p n ≡ wire_size n)
      (b : Begun wire_size (content p)) (long : 7 ≤ p.size) where
    h : PacketHeader
    h = b.view.header

    w : ℕ
    w = wire_size h.message_type

    p₁ : StreamParser
    p₁ = record p { decode_scratch = copy_out p 0 7 p.decode_scratch }

    front : take 7 (content p) ≡ header_bytes h
    unfolding h
    front =
        sym (take-append_left 7 (content p) b.missing (omega (arith, length-content p)))
        ∙ ap (take 7) (b.whole ∙ sym (append-nil (frame b.view.header b.view.payload)))
        ∙ header_front b.view.header b.view.payload []

    copied : copy_out p 0 7 p.decode_scratch ≡ header_bytes h ++ drop 7 p.decode_scratch
    copied =
        copy_out_refines p 0 7 p.decode_scratch v (omega arith)
          (omega (arith, v.roomy, v.scratch_length))
        ∙ ap (λ l. l ++ drop 7 p.decode_scratch) front

    header_read : parse_header (copy_out p 0 7 p.decode_scratch) ≡ h
    unfolding h
    header_read =
        ap parse_header copied
        ∙ parse_header-header_bytes h (drop 7 p.decode_scratch) b.sendable.range

    shorter : p.size < packet_size h.message_count w
    unfolding h w
    shorter =
        let (small, ends, total) =
          sizes_fit h.message_count w b.sendable.range.count_u16 b.sendable.size_fits in
        omega (
          arith,
          total,
          b.sendable.payload_length,
          length-content p,
          length-append (content p) b.missing,
          ap length b.whole,
          length-frame b.view.header b.view.payload,
          b.missing_pos,
        )

    scratch : Bytes
    scratch = copy_out p₁ 0 p.size p₁.decode_scratch

    scratch_read : parse_header scratch ≡ h
    unfolding scratch p₁ h
    scratch_read =
        let kept : IsValid p₁ = (scratch-Same p 7 v).valid in
        ap parse_header (
          copy_out_refines p₁ 0 p.size p₁.decode_scratch kept (omega arith)
            (omega (arith, v.size_le, v.scratch_length, length-copy_out p 0 7 p.decode_scratch))
          ∙ ap (λ l. l ++ drop p.size p₁.decode_scratch)
              (take-all p.size (content p) (omega (arith, length-content p))
                ∙ sym (take-append-drop 7 (content p))
                ∙ ap (λ l. l ++ drop 7 (content p)) front)
          ∙ append_assoc (header_bytes h) (drop 7 (content p)) (drop p.size p₁.decode_scratch))
        ∙ parse_header-header_bytes h (drop 7 (content p) ++ drop p.size p₁.decode_scratch)
            b.sendable.range

    waiting : StreamParser
    waiting = record p₁ { decode_scratch = scratch }

    round_waits : parse_round registry p ≡ stopped waiting
    unfolding p₁ scratch w h waiting parse_header lookup_wire_size
    round_waits =
        let few : b.view.header.message_count ≤ 65535 = omega (arith, b.sendable.range.count_u16) in
        parse_round_version registry p h header_read b.sendable.version
        ∙ parse_frame_known registry p₁ h.message_count h.message_type w
            (ap (λ r. r.message_count) header_read) (ap (λ r. r.message_type) header_read)
            (known h.message_type) b.sendable.size_pos few
        ∙ ap
            (λ k.
              conclude (record p₁ { decode_scratch = copy_out p₁ 0 k p₁.decode_scratch })
                (decode_packet_view_with_size (copy_out p₁ 0 k p₁.decode_scratch) k w))
            (omega (arith, shorter))
        ∙ ap (conclude (record p₁ { decode_scratch = scratch }))
            (decode_short scratch p.size w h scratch_read b.sendable.version few long shorter)
        ∙ conclude_truncated (record p₁ { decode_scratch = scratch })

    round-Waited : Waited p waiting
    unfolding p₁ scratch waiting
    round-Waited =
        let first = scratch-Same p 7 v in
        let second = scratch-Same p₁ p.size first.valid in
        record {
          valid = second.valid;
          left = content-Same second ∙ content-Same first;
          events = refl;
          offset = refl;
          on_packet = refl;
          lookup = refl;
          capacity = refl;
        }

  -- On no more than a part of a packet the loop stops, and keeps everything but the scratch buffer.
  pub parse_buffer_waits :
      (budget : ℕ) (p : StreamParser)
      → IsValid p
      → ((n : ℕ) → lookup_wire_size registry p n ≡ wire_size n)
      → IsPartial wire_size (content p)
      → Waited p (parse_buffer registry budget p).0
  unfolding parse_buffer
  parse_buffer_waits zero p v known part = Waited-self p v
  parse_buffer_waits (suc budget) p v known part = elim (dec_lt p.size 7) [
    | yes short ↦ rw (lt→ltb p.size 7 short) (Waited-self p v)
    | no long ↦ elim part [
      | inl less ↦ absurd (omega (arith, length-content p))
      | inr begun ↦ rw (le→ltb p.size 7 (omega arith)) (
          rw (round_waits p v known begun (omega arith))
            (round-Waited p v known begun (omega arith)))
    ]
  ]
