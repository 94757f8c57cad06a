-- ===== src/Parser/Deliver.antt =====
-- A frame at the front of the ring is handed to the packet callback, and nothing else happens.
use bcnp.Base.{
  ℕ, ◌+◌, ◌*◌, ◌%◌, ◌^◌, ◌<◌, ◌≡◌, refl, ap, ap₂, ◌∙◌, arith, min, some, List, [], ◌∷◌, ◌++◌, All,
  length, length-append, take, drop, take-append, drop-append, if◌then◌else◌,
}
use bcnp.Base.Words.{IsByte, IsU32}
use bcnp.Wire.{Bytes}
use bcnp.Message.{MessageInfo}
use bcnp.Packet.Types.{PacketHeader, PacketView, packet_size, no_error}
use bcnp.Packet.Decode.{parse_header, decode_packet_view_with_size}
use bcnp.Packet.Frame.{
  InRange, header_bytes, frame, length-frame, sizes_fit, parse_header-header_bytes,
}
use bcnp.Packet.Accept.{IsSupported, decode-frame}
use bcnp.Parser.{StreamParser, packet, emit_packet, copy_out, discard, lookup_wire_size}
use bcnp.Parser.Loop.{next, conclude, parse_round}
use bcnp.Parser.Ring.{IsValid, content, length-content, copy_out_refines, discard_refines}
use bcnp.Parser.Rounds.{header_front, parse_frame_known, parse_round_version}
use bcnp.Parser.Account.{content-Same, accept-Same, scratch-Same, length-copy_out}

-- The state behind the delivery of a packet of `n` bytes.
abbrev pub delivered : StreamParser → PacketView → ℕ → StreamParser
delivered p view n = discard (record (emit_packet p view) { consecutive_errors = 0 }) n

-- What a delivery leaves, of a packet of `n` bytes in front of `rest`.
pub record Delivered (p q : StreamParser) (view : PacketView) (rest : Bytes) (n : ℕ) : Type 0 where
  pub valid : IsValid q
  pub left : content q ≡ rest
  pub offset : q.stream_offset ≡ (p.stream_offset + n) % 2 ^ 64
  pub events : q.events ≡ (if p.on_packet then p.events ++ (packet view ∷ []) else p.events)
  pub errors : q.consecutive_errors ≡ 0
  pub on_packet : q.on_packet ≡ p.on_packet
  pub lookup : q.wire_size_lookup ≡ p.wire_size_lookup
  pub capacity : length q.buffer ≡ length p.buffer

delivered_kept :
    (p : StreamParser) (view : PacketView) (n : ℕ)
    → ((delivered p view n).events
        ≡ (if p.on_packet then p.events ++ (packet view ∷ []) else p.events))
      × ((delivered p view n).consecutive_errors ≡ 0)
      × ((delivered p view n).on_packet ≡ p.on_packet)
      × ((delivered p view n).wire_size_lookup ≡ p.wire_size_lookup)
      × (length (delivered p view n).buffer ≡ length p.buffer)
unfolding emit_packet discard
delivered_kept p view n = ground arith

delivered_lem :
    (p : StreamParser) (view : PacketView) (front rest : Bytes) (n : ℕ)
    → IsValid p
    → content p ≡ front ++ rest
    → length front ≡ n
    → Delivered p (delivered p view n) view rest n
delivered_lem p view front rest n v e len =
    let same = accept-Same p view v in
    let d = discard_refines (record (emit_packet p view) { consecutive_errors = 0 }) n same.valid in
    let k = delivered_kept p view n in
    let r : StreamParser = record (emit_packet p view) { consecutive_errors = 0 } in
    let all : min n r.size ≡ n =
      omega (arith, same.size, length-content p, ap length e, length-append front rest, len) in
    record {
      valid = d.1;
      left = d.0 ∙ ap (drop n) (content-Same same ∙ e) ∙ drop-append n front rest len;
      offset = d.2 ∙ ap₂ (λ a b. (a + b) % 2 ^ 64) same.offset all;
      events = k.0;
      errors = k.1;
      on_packet = k.2;
      lookup = k.3;
      capacity = k.4;
    }

conclude_accept :
    (p : StreamParser) (view : PacketView) (n : ℕ)
    → conclude p (record { view = some view; error = no_error; bytes_consumed = n })
      ≡ next (delivered p view n)
unfolding conclude
conclude_accept p view n = refl

module _ (registry : List MessageInfo) where
  -- The frame is there, and its message type is known.
  pub record Arrived (p : StreamParser) (h : PacketHeader) (payload rest : Bytes) (wire_size : ℕ)
      : Type 0 where
    pub valid : IsValid p
    pub range : InRange h
    pub version : IsSupported h
    pub bytes : All IsByte payload
    pub known : lookup_wire_size registry p h.message_type ≡ wire_size
    pub wire_size_pos : 0 < wire_size
    pub wire_size_fits : IsU32 wire_size
    pub payload_length : length payload ≡ h.message_count * wire_size
    pub front : content p ≡ frame h payload ++ rest

  module _ (p : StreamParser) (h : PacketHeader) (payload rest : Bytes) (w : ℕ)
      (a : Arrived p h payload rest w) where
    size_is : p.size ≡ 11 + length payload + length rest
    size_is = omega (
      arith,
      length-content p,
      ap length a.front,
      length-append (frame h payload) rest,
      length-frame h payload,
    )

    copied_header : copy_out p 0 7 p.decode_scratch ≡ header_bytes h ++ drop 7 p.decode_scratch
    copied_header =
        copy_out_refines p 0 7 p.decode_scratch a.valid (omega (arith, size_is))
          (omega (arith, a.valid.roomy, a.valid.scratch_length))
        ∙ ap (λ l. l ++ drop 7 p.decode_scratch) (ap (take 7) a.front ∙ header_front h payload rest)

    header_read : parse_header (copy_out p 0 7 p.decode_scratch) ≡ h
    header_read =
        ap parse_header copied_header
        ∙ parse_header-header_bytes h (drop 7 p.decode_scratch) a.range

    n : ℕ
    n = 11 + length payload

    view : PacketView
    view = record { header = h; payload = payload }

    p₁ : StreamParser
    p₁ = record p { decode_scratch = copy_out p 0 7 p.decode_scratch }

    scratch : Bytes
    scratch = copy_out p₁ 0 n p₁.decode_scratch

    available_is : min (packet_size h.message_count w) p.size ≡ n
    unfolding n
    available_is =
        let (small, ends, total) = sizes_fit h.message_count w a.range.count_u16 a.wire_size_fits in
        omega (arith, total, a.payload_length, size_is)

    copied_frame : scratch ≡ frame h payload ++ drop n p₁.decode_scratch
    unfolding p₁ scratch n
    copied_frame =
        copy_out_refines p₁ 0 n p₁.decode_scratch (scratch-Same p 7 a.valid).valid
          (omega (arith, size_is))
          (omega (
            arith,
            size_is,
            a.valid.size_le,
            a.valid.scratch_length,
            length-copy_out p 0 7 p.decode_scratch,
          ))
        ∙ ap (λ l. l ++ drop n p₁.decode_scratch)
            (ap (take n) a.front ∙ take-append n (frame h payload) rest (length-frame h payload))

    decoded :
        decode_packet_view_with_size scratch n w
        ≡ record { view = some view; error = no_error; bytes_consumed = n }
    unfolding view n
    decoded =
        ap (λ l. decode_packet_view_with_size l n w) copied_frame
        ∙ decode-frame h payload (drop n p₁.decode_scratch) n w a.range a.version a.bytes
            a.wire_size_fits a.payload_length (omega arith)

    round_is :
        parse_round registry p ≡ next (delivered (record p₁ { decode_scratch = scratch }) view n)
    unfolding p₁ scratch lookup_wire_size parse_header
    round_is =
        parse_round_version registry p h header_read a.version
        ∙ parse_frame_known registry p₁ h.message_count h.message_type w
            (ap (λ r. r.message_count) header_read) (ap (λ r. r.message_type) header_read) a.known
            a.wire_size_pos (omega (arith, a.range.count_u16))
        ∙ ap
            (λ k.
              conclude (record p₁ { decode_scratch = copy_out p₁ 0 k p₁.decode_scratch })
                (decode_packet_view_with_size (copy_out p₁ 0 k p₁.decode_scratch) k w))
            available_is
        ∙ ap (conclude (record p₁ { decode_scratch = scratch })) decoded
        ∙ conclude_accept (record p₁ { decode_scratch = scratch }) view n

  -- A round on a ring that begins with a frame hands its packet to the callback, takes the frame from
  -- the ring, and clears the error count.
  pub parse_round_delivers :
      (p : StreamParser) (h : PacketHeader) (payload rest : Bytes) (w : ℕ)
      → Arrived p h payload rest w
      → (q : StreamParser) × (parse_round registry p ≡ next q)
        × Delivered p q (record { header = h; payload = payload }) rest (11 + length payload)
  unfolding p₁ scratch view n
  parse_round_delivers p h payload rest w a =
      let first = scratch-Same p 7 a.valid in
      let both = scratch-Same (p₁ p h payload rest w a) (n p h payload rest w a) first.valid in
      let q = record (p₁ p h payload rest w a) { decode_scratch = scratch p h payload rest w a } in
      let d =
        delivered_lem q (view p h payload rest w a) (frame h payload) rest (11 + length payload)
          both.valid a.front (length-frame h payload) in
      (
        delivered q (view p h payload rest w a) (11 + length payload),
        round_is p h payload rest w a,
        record {
          valid = d.valid;
          left = d.left;
          offset = d.offset;
          events = d.events;
          errors = d.errors;
          on_packet = d.on_packet;
          lookup = d.lookup;
          capacity = d.capacity;
        },
      )
