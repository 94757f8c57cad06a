-- ===== src/Packet/Vector.antt =====
-- The overload of `EncodeTypedPacket` for a vector.
use bcnp.Base.{
  ℕ, ◌+◌, ◌-◌, ◌≤◌, ◌≡◌, ap, ◌∙◌, arith, some, ◌++◌, append-nil, length, length-append, length-take,
  length-replicate, take, drop, take-append, length-drop, replicate, le→ltb,
}
use bcnp.Wire.{Bytes}
use bcnp.Message.{MessageType, IsCodec}
use bcnp.Packet.Types.{TypedPacket, packet_size}
use bcnp.Packet.Encode.{encode_typed_packet_vector, resize}
use bcnp.Packet.Frame.{frame, payload_of, length-frame, sizes_fit}
use bcnp.Packet.Layout.{wire_header, length-payload_of, encode_typed_packet-frame}

length-resize : (t : MessageType) (n : ℕ) (bytes : Bytes) → length (resize t n bytes) ≡ n
length-resize t n bytes = omega (
  arith,
  length-append (take n bytes) (replicate (n - length bytes) 0),
  length-take n bytes,
  length-replicate {A = ℕ} (n - length bytes) 0,
)

resize-append :
    (t : MessageType) (n : ℕ) (xs ys : Bytes)
    → length xs ≡ n
    → length ys ≡ 0
    → resize t n (xs ++ ys) ≡ xs
resize-append t n xs ys e none =
    let full : n - length (xs ++ ys) ≡ 0 = omega (arith, length-append xs ys) in
    ap (λ k. take n (xs ++ ys) ++ replicate k 0) full
    ∙ append-nil (take n (xs ++ ys))
    ∙ take-append n xs ys e

-- Where the messages encode and there are at most 65535 of them, the vector becomes the frame of the
-- packet, whatever it held before.
pub encode_typed_packet_vector-frame :
    (t : MessageType) (p : TypedPacket t) (payload output : Bytes)
    → IsCodec t
    → payload_of t p.messages ≡ some payload
    → length p.messages ≤ 65535
    → encode_typed_packet_vector t p output ≡ some (frame (wire_header t p) payload)
unfolding encode_typed_packet_vector
encode_typed_packet_vector-frame t p payload output c e few =
    let required = packet_size (length p.messages) t.wire_size in
    let (small, ends, size) =
      sizes_fit (length p.messages) t.wire_size (omega arith) c.wire_size_fits in
    let len = length-payload_of t c p.messages payload e in
    let long = length-resize t required output in
    let written =
      encode_typed_packet-frame t p payload (resize t required output) required c e few
        (omega (arith, size, len)) (omega (arith, long)) in
    rw (le→ltb 65535 (length p.messages) few) (
      rw written (
        ap some (
          resize-append t (11 + length payload) (frame (wire_header t p) payload)
            (drop (11 + length payload) (resize t required output))
            (length-frame (wire_header t p) payload)
            (omega (
              arith,
              length-drop (11 + length payload) (resize t required output),
              long,
              size,
              len,
            )))))
