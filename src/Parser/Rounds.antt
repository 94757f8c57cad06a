-- ===== src/Parser/Rounds.antt =====
-- How a round of the parse loop goes on a ring that begins with a header of the supported version.
use bcnp.Base.{
  ℕ, ◌≤◌, ◌<◌, ◌≡◌, refl, ap, ◌∙◌, arith, min, false, List, ◌++◌, append_assoc, take, take-append,
  le→ltb, ◌==◌,
}
use bcnp.Wire.{Bytes, byte_at, load_u16, u32_bytes}
use bcnp.Crc.{compute_crc32}
use bcnp.Message.{MessageInfo}
use bcnp.Packet.Types.{PacketHeader, packet_size}
use bcnp.Packet.Decode.{parse_header, decode_packet_view_with_size}
use bcnp.Packet.Frame.{header_bytes, body, frame, length-header_bytes}
use bcnp.Packet.Accept.{IsSupported}
use bcnp.Parser.{StreamParser, copy_out, lookup_wire_size}
use bcnp.Parser.Loop.{conclude, parse_frame, parse_round}

pub header_front :
    (h : PacketHeader) (payload rest : Bytes) → take 7 (frame h payload ++ rest) ≡ header_bytes h
unfolding frame
header_front h payload rest =
    ap (take 7) (
      append_assoc (body h payload) (u32_bytes (compute_crc32 (body h payload))) rest
      ∙ append_assoc (header_bytes h) payload (u32_bytes (compute_crc32 (body h payload)) ++ rest))
    ∙ take-append 7 (header_bytes h)
        (payload ++ (u32_bytes (compute_crc32 (body h payload)) ++ rest)) (length-header_bytes h)

module _ (registry : List MessageInfo) where
  -- The part of a round behind the guards.
  pub parse_frame_known :
      (p : StreamParser) (count type_id w : ℕ)
      → load_u16 p.decode_scratch 5 ≡ count
      → load_u16 p.decode_scratch 3 ≡ type_id
      → lookup_wire_size registry p type_id ≡ w
      → 0 < w
      → count ≤ 65535
      → let available = min (packet_size count w) p.size in
        let scratch = copy_out p 0 available p.decode_scratch in
        parse_frame registry p
        ≡ conclude
            (record p { decode_scratch = scratch })
            (decode_packet_view_with_size scratch available w)
  unfolding parse_frame
  parse_frame_known p count type_id w ec et ew pos few =
      rw ec (rw et (rw ew (rw (positive w pos) (rw (le→ltb 65535 count few)))))
    where
      positive : (n : ℕ) → 0 < n → (n == 0) ≡ false
      positive n h = ground arith

  pub parse_round_version :
      (p : StreamParser) (h : PacketHeader)
      → parse_header (copy_out p 0 7 p.decode_scratch) ≡ h
      → IsSupported h
      → parse_round registry p
        ≡ parse_frame registry (record p { decode_scratch = copy_out p 0 7 p.decode_scratch })
  unfolding parse_round parse_header
  parse_round_version p h e v =
      let major : byte_at (copy_out p 0 7 p.decode_scratch) 0 ≡ 3 = ap (λ r. r.major) e ∙ v.0 in
      let minor : byte_at (copy_out p 0 7 p.decode_scratch) 1 ≡ 2 = ap (λ r. r.minor) e ∙ v.1 in
      rw major (rw minor refl)
