-- ===== src/Packet/Layout.antt =====
-- The encoder writes the frame of the packet, and leaves the buffer behind it alone.
use bcnp.Base.{
  ℕ, suc, ◌+◌, ◌*◌, ◌%◌, ◌^◌, ◌≤◌, ◌<◌, ◌≡◌, refl, sym, ap, ap₂, ◌∙◌, arith, some, List, [], ◌∷◌,
  ◌++◌, append_assoc, length, length-append, length-take, length-drop, take-append-drop, All,
  All-append, take, drop, drop-drop, take-append, write_at, write_at-append, le→ltb, >>=-eq-some,
  some_injective,
}
use bcnp.Base.Words.{IsByte, IsU16}
use bcnp.Wire.{Bytes, u16_bytes, u32_bytes, store_u16, store_u32}
use bcnp.Crc.{compute_crc32}
use bcnp.Message.{MessageType, IsCodec}
use bcnp.Packet.Types.{PacketHeader, TypedPacket, payload_end, packet_size}
use bcnp.Packet.Encode.{encode_messages, encode_header, encode_checksum, encode_typed_packet}
use bcnp.Packet.Frame.{header_bytes, frame, payload_of, length-header_bytes, sizes_fit}
use native.Mathlib.Nat.{mod-eq_of_lt}

-- The header that goes on the wire: the type and the count come from the messages.
abbrev pub wire_header : (t : MessageType) → TypedPacket t → PacketHeader
wire_header t p = record {
  major = p.header.major;
  minor = p.header.minor;
  flags = p.header.flags;
  message_type = t.type_id;
  message_count = length p.messages;
}

module _ (t : MessageType) where
  payload_of-nil : (payload : Bytes) → payload_of t [] ≡ some payload → [] ≡ payload
  unfolding payload_of
  payload_of-nil payload e = some_injective e

  -- The payload of a list of messages is that of the first, and of the others.
  pub payload_of-cons :
      (m : t.Msg) (ms : List t.Msg) (payload : Bytes)
      → payload_of t (m ∷ ms) ≡ some payload
      → (bs : Bytes) × (rest : Bytes) × (t.encode m ≡ some bs)
        × (payload_of t ms ≡ some rest)
        × (bs ++ rest ≡ payload)
  unfolding payload_of
  payload_of-cons m ms payload e =
      let (bs, eb, e') = >>=-eq-some (t.encode m) _ e in
      let (rest, er, es) = >>=-eq-some (payload_of t ms) _ e' in
      (bs, rest, eb, er, some_injective es)

module _ (t : MessageType) (c : IsCodec t) where
  pub length-payload_of :
      (ms : List t.Msg) (payload : Bytes)
      → payload_of t ms ≡ some payload
      → length payload ≡ length ms * t.wire_size
  length-payload_of [] payload e = rw (← payload_of-nil t payload e) (omega arith)
  length-payload_of (m ∷ ms) payload e =
      let (bs, rest, eb, er, es) = payload_of-cons t m ms payload e in
      rw (← es) (
        omega (arith, length-append bs rest, c.encode_length m bs eb, length-payload_of ms rest er))

  pub payload_of-All-IsByte :
      (ms : List t.Msg) (payload : Bytes) → payload_of t ms ≡ some payload → All IsByte payload
  payload_of-All-IsByte [] payload e = rw (← payload_of-nil t payload e) tt
  payload_of-All-IsByte (m ∷ ms) payload e =
      let (bs, rest, eb, er, es) = payload_of-cons t m ms payload e in
      rw (← es)
        (All-append IsByte bs rest (c.encode_bytes m bs eb) (payload_of-All-IsByte ms rest er))

  -- One message is written over the part of the buffer that has its size.
  write_message :
      (front bs old back : Bytes) (n offset : ℕ)
      → length bs ≡ t.wire_size
      → length old ≡ suc n * t.wire_size
      → offset ≡ length front
      → write_at (front ++ (old ++ back)) offset bs
        ≡ (front ++ bs) ++ (drop t.wire_size old ++ back)
  write_message front bs old back n offset hb ho h =
      ap (λ l. write_at (front ++ (l ++ back)) offset bs) (sym (take-append-drop w old))
      ∙ ap (λ l. write_at (front ++ l) offset bs) (append_assoc (take w old) (drop w old) back)
      ∙ write_at-append front (take w old) bs (drop w old ++ back) offset sizes h
      ∙ sym (append_assoc front bs (drop w old ++ back))
    where
      w : ℕ
      w = t.wire_size

      sizes : length (take w old) ≡ length bs
      sizes = omega (arith, length-take w old)

  encode_messages_lem :
      (ms : List t.Msg) (payload front old back : Bytes) (offset : ℕ)
      → payload_of t ms ≡ some payload
      → length old ≡ length ms * t.wire_size
      → offset ≡ length front
      → offset + length old < 2 ^ 64
      → encode_messages t ms offset (front ++ (old ++ back)) ≡ some (front ++ (payload ++ back))
  unfolding encode_messages
  encode_messages_lem [] payload front [] back offset e ho h fits =
      rw (← payload_of-nil t payload e) refl
  encode_messages_lem [] payload front (x ∷ old) back offset e ho h fits = absurd (omega arith)
  encode_messages_lem (m ∷ ms) payload front old back offset e ho h fits =
      let (bs, rest, eb, er, es) = payload_of-cons t m ms payload e in
      let hb : length bs ≡ w = c.encode_length m bs eb in
      rw (eb, encode_messages)
        (ap (encode_messages t ms ((offset + w) % 2 ^ 64))
            (write_message front bs old back (length ms) offset hb ho h)
          ∙ encode_messages_lem ms rest (front ++ bs) (drop w old) back ((offset + w) % 2 ^ 64) er
              (omega (arith, length-drop w old)) (omega (arith, length-append front bs))
              (omega (arith, length-drop w old))
          ∙ ap some (
              append_assoc front bs (rest ++ back)
              ∙ ap (λ l. front ++ l) (sym (append_assoc bs rest back) ∙ ap (λ l. l ++ back) es)))
    where
      w : ℕ
      w = t.wire_size

-- The stores of the header replace the first seven bytes.
encode_header_lem :
    (t : MessageType) (p : TypedPacket t) (output : Bytes)
    → IsU16 t.type_id
    → IsU16 (length p.messages)
    → 7 ≤ length output
    → encode_header t p output ≡ header_bytes (wire_header t p) ++ drop 7 output
unfolding encode_header header_bytes store_u16 u16_bytes
encode_header_lem t p [] ht hc h = absurd (omega arith)
encode_header_lem t p (a ∷ []) ht hc h = absurd (omega arith)
encode_header_lem t p (a ∷ b ∷ []) ht hc h = absurd (omega arith)
encode_header_lem t p (a ∷ b ∷ c ∷ []) ht hc h = absurd (omega arith)
encode_header_lem t p (a ∷ b ∷ c ∷ d ∷ []) ht hc h = absurd (omega arith)
encode_header_lem t p (a ∷ b ∷ c ∷ d ∷ e ∷ []) ht hc h = absurd (omega arith)
encode_header_lem t p (a ∷ b ∷ c ∷ d ∷ e ∷ f ∷ []) ht hc h = absurd (omega arith)
encode_header_lem t p (a ∷ b ∷ c ∷ d ∷ e ∷ f ∷ g ∷ rest) ht hc h =
    ap₂
      (λ x y.
        p.header.major ∷ p.header.minor ∷ p.header.flags ∷ (u16_bytes x ++ (u16_bytes y ++ rest)))
      (mod-eq_of_lt ht) (mod-eq_of_lt hc)

encode_checksum_lem :
    (front old back : Bytes) (n : ℕ) (t : MessageType)
    → length old ≡ 4
    → n ≡ length front
    → encode_checksum t n (front ++ (old ++ back))
      ≡ front ++ (u32_bytes (compute_crc32 front) ++ back)
unfolding encode_checksum store_u32
encode_checksum_lem front old back n t ho h =
    ap (λ f. write_at (front ++ (old ++ back)) n (u32_bytes (compute_crc32 f)))
      (take-append n front (old ++ back) (sym h))
    ∙ write_at-append front old (u32_bytes (compute_crc32 front)) back n (unfold u32_bytes in ho) h

module _ (t : MessageType) (c : IsCodec t) (ms : List t.Msg) (payload header tail : Bytes)
    (n : ℕ) where
  -- The payload stands behind the header, and what was behind it stays.
  messages_behind :
      payload_of t ms ≡ some payload
      → length header ≡ 7
      → n ≡ length ms * t.wire_size
      → n ≤ length tail
      → 7 + n < 2 ^ 64
      → encode_messages t ms 7 (header ++ tail) ≡ some (header ++ (payload ++ drop n tail))
  messages_behind e hh hn room fits =
      ap (λ l. encode_messages t ms 7 (header ++ l)) (sym (take-append-drop n tail))
      ∙ encode_messages_lem t c ms payload header (take n tail) (drop n tail) 7 e
          (omega (arith, length-take n tail)) (omega arith) (omega (arith, length-take n tail))

  checksum_behind :
      payload_of t ms ≡ some payload
      → length header ≡ 7
      → n ≡ length ms * t.wire_size
      → n + 4 ≤ length tail
      → encode_checksum t (7 + n) (header ++ (payload ++ drop n tail))
        ≡ ((header ++ payload) ++ u32_bytes (compute_crc32 (header ++ payload)))
          ++ drop (n + 4) tail
  checksum_behind e hh hn room =
      ap (encode_checksum t (7 + n)) (sym (append_assoc header payload (drop n tail)))
      ∙ ap (λ l. encode_checksum t (7 + n) ((header ++ payload) ++ l))
          (sym (take-append-drop 4 (drop n tail)))
      ∙ encode_checksum_lem (header ++ payload) (take 4 (drop n tail)) (drop 4 (drop n tail))
          (7 + n) t (omega (arith, length-take 4 (drop n tail), length-drop n tail))
          (omega (arith, length-append header payload, length-payload_of t c ms payload e))
      ∙ ap (λ l. (header ++ payload) ++ (u32_bytes (compute_crc32 (header ++ payload)) ++ l))
          (drop-drop 4 n tail)
      ∙ sym (append_assoc (header ++ payload) (u32_bytes (compute_crc32 (header ++ payload))) _)

-- The path through the guards.
encode_success :
    (t : MessageType) (p : TypedPacket t) (output written : Bytes) (capacity : ℕ)
    → length p.messages ≤ 65535
    → packet_size (length p.messages) t.wire_size ≤ capacity
    → encode_messages t p.messages 7 (encode_header t p output) ≡ some written
    → encode_typed_packet t p (some output) capacity
      ≡ some (
        encode_checksum t (payload_end (length p.messages) t.wire_size) written,
        packet_size (length p.messages) t.wire_size,
      )
unfolding encode_typed_packet
encode_success t p output written capacity hc room e = rw (
  le→ltb 65535 (length p.messages) hc,
  le→ltb capacity (packet_size (length p.messages) t.wire_size) room,
  e,
)

-- Where the messages encode, there are at most 65535 of them and the buffer has room, the encoder
-- succeeds: it writes the frame of the packet to the front of the buffer, leaves the rest of the
-- buffer alone, and reports the frame's size.
pub encode_typed_packet-frame :
    (t : MessageType) (p : TypedPacket t) (payload output : Bytes) (capacity : ℕ)
    → IsCodec t
    → payload_of t p.messages ≡ some payload
    → length p.messages ≤ 65535
    → 11 + length payload ≤ capacity
    → capacity ≤ length output
    → encode_typed_packet t p (some output) capacity
      ≡ some (
        frame (wire_header t p) payload ++ drop (11 + length payload) output,
        11 + length payload,
      )
unfolding frame
encode_typed_packet-frame t p payload output capacity c e hc room fits =
    let n = length p.messages * t.wire_size in
    let (small, ends, size) =
      sizes_fit (length p.messages) t.wire_size (omega arith) c.wire_size_fits in
    let hn : length payload ≡ n = length-payload_of t c p.messages payload e in
    let tail = drop 7 output in
    let room7 : 7 ≤ length output = omega arith in
    let in_tail : n + 4 ≤ length tail = omega (arith, length-drop 7 output) in
    let header = header_bytes (wire_header t p) in
    let hh : length header ≡ 7 = length-header_bytes (wire_header t p) in
    let written = header ++ (payload ++ drop n tail) in
    let messages : encode_messages t p.messages 7 (encode_header t p output) ≡ some written =
      ap (encode_messages t p.messages 7)
        (encode_header_lem t p output c.type_id_fits (omega arith) room7)
      ∙ messages_behind t c p.messages payload header tail n e hh refl (omega arith)
          (omega arith) in
    let checksum = checksum_behind t c p.messages payload header tail n e hh refl in_tail in
    encode_success t p output written capacity hc (omega arith) messages
    ∙ ap₂ (λ b k. some (b, k))
        (ap (λ k. encode_checksum t k written) ends
          ∙ checksum
          ∙ ap (λ l. frame (wire_header t p) payload ++ l)
              (drop-drop (n + 4) 7 output ∙ ap (λ k. drop k output) (omega arith)))
        (omega arith)
