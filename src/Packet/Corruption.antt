-- ===== src/Packet/Corruption.antt =====
-- What happens to a packet that was changed on its way.
use bcnp.Base.{
  ℕ, ◌+◌, ◌*◌, ◌≤◌, ◌≡◌, ◌≢◌, sym, ap, ◌∙◌, arith, ◌++◌, append_assoc, length, length-append, All,
  All-append,
}
use bcnp.Base.Words.{IsByte, IsU32}
use bcnp.Wire.{Bytes}
use bcnp.Crc.{compute_crc32}
use bcnp.Crc.Register.{compute_crc32-IsU32}
use bcnp.Crc.Detect.{compute_crc32_detects_burst}
use bcnp.Packet.Types.{PacketHeader, checksum_mismatch}
use bcnp.Packet.Decode.{fail, decode_packet_view_with_size}
use bcnp.Packet.Frame.{InRange, header_bytes, body, body-All-IsByte, header_bytes-All-IsByte}
use bcnp.Packet.Accept.{IsSupported, with_checksum, decode_wrong_checksum}

-- A packet of which up to four bytes of payload in a row were changed on the way, everything else
-- left as it was sent, is refused as a checksum mismatch: it never reaches a handler.
pub decode_detects_burst :
    (h : PacketHeader) (front sent received back rest : Bytes) (size wire_size : ℕ)
    → InRange h
    → IsSupported h
    → All IsByte front
    → All IsByte sent
    → All IsByte received
    → All IsByte back
    → IsU32 wire_size
    → length sent ≤ 4
    → length sent ≡ length received
    → sent ≢ received
    → length (front ++ (sent ++ back)) ≡ h.message_count * wire_size
    → 11 + length (front ++ (sent ++ back)) ≤ size
    → decode_packet_view_with_size
        (with_checksum h
          (front ++ (received ++ back))
          (compute_crc32 (body h (front ++ (sent ++ back))))
          rest)
        size
        wire_size
      ≡ fail checksum_mismatch (11 + length (front ++ (sent ++ back)))
decode_detects_burst h front sent received back rest size w r v hf hs hr hb hw short l ne e room =
    decode_wrong_checksum h altered rest (compute_crc32 (body h payload)) size w r v
      (compute_crc32-IsU32 (body h payload) (body-All-IsByte h payload r (parts sent hs))) hw
      (omega (arith, same)) (omega (arith, same)) differ
    ∙ ap (fail checksum_mismatch) (omega (arith, same))
  where
    payload : Bytes
    payload = front ++ (sent ++ back)

    altered : Bytes
    altered = front ++ (received ++ back)

    parts : (zs : Bytes) → All IsByte zs → All IsByte (front ++ (zs ++ back))
    parts zs hz = All-append IsByte front (zs ++ back) hf (All-append IsByte zs back hz hb)

    same : length altered ≡ length payload
    same = omega (
      arith,
      length-append front (sent ++ back),
      length-append front (received ++ back),
      length-append sent back,
      length-append received back,
    )

    regroup :
        (zs : Bytes) → (header_bytes h ++ front) ++ (zs ++ back) ≡ body h (front ++ (zs ++ back))
    regroup zs = append_assoc (header_bytes h) front (zs ++ back)

    differ : compute_crc32 (body h payload) ≢ compute_crc32 (body h altered)
    differ q =
        compute_crc32_detects_burst (header_bytes h ++ front) sent received back
          (All-append IsByte (header_bytes h) front (header_bytes-All-IsByte h r) hf) hs hr hb short
          l ne (ap compute_crc32 (regroup sent) ∙ q ∙ sym (ap compute_crc32 (regroup received)))
