-- ===== src/Packet/RoundTrip.antt =====
-- From a typed packet to the wire and back.
use bcnp.Base.{
  ℕ, ◌+◌, ◌%◌, ◌^◌, ◌≤◌, ◌≡◌, refl, sym, ap, ◌∙◌, inl, inr, arith, some, List, [], ◌∷◌, ◌++◌,
  append_assoc, append-nil, length, All, drop, take-append, drop-append, write_at, Option-cases,
  some_injective,
}
use bcnp.Base.Words.{IsByte}
use bcnp.Wire.{Bytes}
use bcnp.Message.{MessageType, IsCodec}
use bcnp.Packet.Types.{PacketHeader, PacketView, TypedPacket, packet_size, no_error}
use bcnp.Packet.Decode.{
  decode_packet_view_with_size, decode_packet_view_as, decode_messages, decode_typed_packet,
}
use bcnp.Packet.Encode.{encode_messages, encode_header, encode_typed_packet}
use bcnp.Packet.Frame.{InRange, payload_of, sizes_fit}
use bcnp.Packet.Layout.{
  wire_header, payload_of-cons, length-payload_of, payload_of-All-IsByte, encode_typed_packet-frame,
}
use bcnp.Packet.Accept.{IsSupported, decode-frame}

module _ (t : MessageType) (c : IsCodec t) where
  -- One message is decoded from the front of a payload.
  decode_front :
      (m : t.Msg) (bs rest : Bytes)
      → t.InRange m
      → t.encode m ≡ some bs
      → t.decode (bs ++ rest) ≡ some m
  decode_front m bs rest r e =
      sym (c.decode_front (bs ++ rest))
      ∙ ap t.decode (take-append t.wire_size bs rest (c.encode_length m bs e))
      ∙ c.decode-encode m bs r e

  decode_messages-payload_of :
      (ms : List t.Msg) (payload : Bytes) (out : List t.Msg)
      → All t.InRange ms
      → payload_of t ms ≡ some payload
      → decode_messages t (length ms) payload out ≡ some (out ++ ms)
  unfolding decode_messages
  decode_messages-payload_of [] payload out r e = ap some (sym (append-nil out))
  decode_messages-payload_of (m ∷ ms) payload out r e =
      let (bs, rest, eb, er, es) = payload_of-cons t m ms payload e in
      let first : t.decode payload ≡ some m =
        ap t.decode (sym es) ∙ decode_front m bs rest r.0 eb in
      let behind : drop t.wire_size payload ≡ rest =
        ap (drop t.wire_size) (sym es)
        ∙ drop-append t.wire_size bs rest (c.encode_length m bs eb) in
      rw (first, decode_messages)
        (ap (λ l. decode_messages t (length ms) l (out ++ (m ∷ []))) behind
          ∙ decode_messages-payload_of ms rest (out ++ (m ∷ [])) r.1 er
          ∙ ap some (append_assoc out (m ∷ []) ms))

  -- A view of the messages' bytes decodes to the messages.
  pub decode_typed_packet-payload_of :
      (ms : List t.Msg) (h : PacketHeader) (payload : Bytes)
      → All t.InRange ms
      → payload_of t ms ≡ some payload
      → h.message_type ≡ t.type_id
      → h.message_count ≡ length ms
      → decode_typed_packet t (record { header = h; payload = payload })
        ≡ some (record { header = h; messages = ms })
  unfolding decode_typed_packet
  decode_typed_packet-payload_of ms h payload r e et en = ground (
    arith,
    decode_messages-payload_of ms payload [] r e,
    ap (λ k. decode_messages t k payload []) en,
  )

encode_messages-cons :
    (t : MessageType) (m : t.Msg) (ms : List t.Msg) (offset : ℕ) (output : Bytes) {written : Bytes}
    → encode_messages t (m ∷ ms) offset output ≡ some written
    → (bs : Bytes) × (t.encode m ≡ some bs)
      × (encode_messages t ms ((offset + t.wire_size) % 2 ^ 64) (write_at output offset bs)
          ≡ some written)
unfolding encode_messages
encode_messages-cons t m ms offset output e = elim (Option-cases (t.encode m)) [
  | inl no_bytes ↦ cc (rw (no_bytes, encode_messages) at e)
  | inr (bs, eb) ↦ (bs, eb, rw (eb, encode_messages) at e)
]

payload_of_both :
    (t : MessageType) (m : t.Msg) (ms : List t.Msg) (bs rest : Bytes)
    → t.encode m ≡ some bs
    → payload_of t ms ≡ some rest
    → payload_of t (m ∷ ms) ≡ some (bs ++ rest)
unfolding payload_of
payload_of_both t m ms bs rest eb er = rw (eb, er)

-- If every message encodes, the payload exists.
payload_of_success :
    (t : MessageType) (ms : List t.Msg) (offset : ℕ) (output : Bytes) {written : Bytes}
    → encode_messages t ms offset output ≡ some written
    → (payload : Bytes) × (payload_of t ms ≡ some payload)
payload_of_success t [] offset output e = ([], unfold payload_of in refl)
payload_of_success t (m ∷ ms) offset output e =
    let (bs, eb, e') = encode_messages-cons t m ms offset output e in
    let (rest, er) = payload_of_success t ms _ _ e' in
    (bs ++ rest, payload_of_both t m ms bs rest eb er)

-- What a successful call has checked.
record Checked (t : MessageType) (p : TypedPacket t) (output : Bytes) (capacity : ℕ) : Type 0 where
  few : length p.messages ≤ 65535
  room : packet_size (length p.messages) t.wire_size ≤ capacity
  inner : Bytes
  all : encode_messages t p.messages 7 (encode_header t p output) ≡ some inner

checked :
    (t : MessageType) (p : TypedPacket t) (output : Bytes) (capacity : ℕ) {result : Bytes × ℕ}
    → encode_typed_packet t p (some output) capacity ≡ some result
    → Checked t p output capacity
unfolding encode_typed_packet
checked t p output capacity e =
    elim (Option-cases (encode_messages t p.messages 7 (encode_header t p output))) [
      | inl stopped ↦ absurd (ground (arith, stopped))
      | inr (w, ew) ↦ record {
        few = ground (arith, ew);
        room = ground (arith, ew);
        inner = w;
        all = ew;
      }
    ]

-- What a successful encoding wrote, cut at the size that it reports, is decoded to a view whose
-- header has the message type and the number of messages, and the view is decoded to the messages.
pub decode-encode_typed_packet :
    (t : MessageType) (p : TypedPacket t) (output written : Bytes) (capacity size : ℕ)
    → IsCodec t
    → IsSupported p.header
    → IsByte p.header.flags
    → All t.InRange p.messages
    → capacity ≤ length output
    → encode_typed_packet t p (some output) capacity ≡ some (written, size)
    → (v : PacketView) × (decode_packet_view_as t written size
        ≡ record { view = some v; error = no_error; bytes_consumed = size })
      × (decode_typed_packet t v
          ≡ some (record { header = wire_header t p; messages = p.messages }))
unfolding decode_packet_view_as
decode-encode_typed_packet t p output written capacity size c v hf hr fits e =
    let k = checked t p output capacity e in
    let (payload, ep) = payload_of_success t p.messages 7 (encode_header t p output) k.all in
    let len = length-payload_of t c p.messages payload ep in
    let (small, ends, total) =
      sizes_fit (length p.messages) t.wire_size (omega (arith, k.few)) c.wire_size_fits in
    let same = some_injective (
      sym (
        encode_typed_packet-frame t p payload output capacity c ep k.few (omega (arith, k.room))
          fits)
      ∙ e) in
    let range : InRange (wire_header t p) = record {
      major_byte = omega arith;
      minor_byte = omega arith;
      flags_byte = hf;
      type_u16 = c.type_id_fits;
      count_u16 = omega (arith, k.few);
    } in
    let size_is : 11 + length payload ≡ size = ap (λ r. r.1) same in
    (
      record { header = wire_header t p; payload = payload },
      ap (λ l. decode_packet_view_with_size l size t.wire_size) (sym (ap (λ r. r.0) same))
          ∙ decode-frame (wire_header t p) payload (drop (11 + length payload) output) size
              t.wire_size range v (payload_of-All-IsByte t c p.messages payload ep) c.wire_size_fits
              len (omega arith)
          ∙ (λ i. record {
            view = some (record { header = wire_header t p; payload = payload });
            error = no_error;
            bytes_consumed = size_is i;
          }),
      decode_typed_packet-payload_of t c p.messages (wire_header t p) payload hr ep refl refl,
    )
