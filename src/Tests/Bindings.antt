-- ===== src/Tests/Bindings.antt =====
-- The Java binding encodes a packet, and takes one in two pieces.
use bcnp.Base.{
  ◌*◌, ◌≡◌, ◌∙◌, refl, sym, ap, arith, true, some, List, [], ◌∷◌, ◌++◌, append-nil, length, map,
  if◌then◌else◌, take, drop, replicate,
}
use bcnp.Wire.{Bytes, load_u32}
use bcnp.Crc.{compute_crc32}
use bcnp.Message.{MessageInfo, get_message_info}
use bcnp.Packet.Types.{no_error, checksum_mismatch}
use bcnp.Packet.Decode.{fail, decode_packet_view_with_size}
use bcnp.Packet.Frame.{body, frame}
use bcnp.Parser.{StreamParser, lookup_wire_size, new_parser}
use bcnp.Parser.Ring.{content, new_parser-IsValid}
use bcnp.Parser.Chunks.{Receives, concat}
use bcnp.Jni.{JavaStreamParser, encode_packet, checksum_bytes, create_stream_parser}
use bcnp.Jni.Encoded.{java_header}
use bcnp.Jni.Checksum.{is_palindrome, java_packet_decodes}
use bcnp.Jni.Streams.{push_pieces, pops, summary, pushed_is_popped}
use bcnp.Tests.Packets.{
  checksum_of_alert, alert_header, alert_header-InRange, alert_payload, alert_bytes, alert_view,
  frame_of_alert,
}

abbrev room : Bytes
room = replicate 20 0

java_packet_decodes_example :
    let h = java_header 0 12 1 in
    let crc = compute_crc32 (body h alert_payload) in
    let (size, out) = encode_packet (some room) 20 12 0 (some alert_payload) 4 1 in
    decode_packet_view_with_size out size 4 ≡ (
      if is_palindrome crc
      then record {
        view = some (record { header = h; payload = alert_payload });
        error = no_error;
        bytes_consumed = 15;
      }
      else fail checksum_mismatch 15)
java_packet_decodes_example =
    java_packet_decodes room alert_payload 20 0 12 1 4 (omega arith) (omega arith) (omega arith)
      (omega arith) (omega arith) refl

-- The wire sizes that a schema with one message declares.
abbrev registry : List MessageInfo
registry = record { type_id = 12; wire_size = 4 } ∷ []

abbrev bound : StreamParser
bound = (create_stream_parser 64).parser

bound_size : lookup_wire_size registry bound 12 ≡ 4
unfolding create_stream_parser new_parser lookup_wire_size get_message_info
bound_size = refl

bound_empty : content bound ≡ []
unfolding create_stream_parser new_parser
bound_empty = refl

Receives-bound :
    Receives registry
      (lookup_wire_size registry bound)
      15
      bound
      (alert_view ∷ [])
      (concat (take 3 alert_bytes ∷ drop 3 alert_bytes ∷ []))
unfolding create_stream_parser new_parser
Receives-bound = record {
  valid = new_parser-IsValid true true 64;
  on_packet = refl;
  known = λ n. refl;
  sendable = (
    record {
      range = alert_header-InRange;
      version = (refl, refl);
      bytes = omega arith;
      size_pos = omega (arith, bound_size);
      size_fits = omega (arith, bound_size);
      payload_length = sym (ap (λ n. 1 * n) bound_size);
    },
    tt,
  );
  short = (omega arith, tt);
  stream =
      ap (λ l. l ++ alert_bytes) bound_empty
      ∙ sym frame_of_alert
      ∙ sym (append-nil (frame alert_header alert_payload));
  owes = omega (arith, ap length bound_empty);
  small = omega arith;
}

pushed_is_popped_example :
    (k : JavaStreamParser) × (push_pieces registry
        (record { parser = bound; pending_packets = [] })
        (take 3 alert_bytes ∷ drop 3 alert_bytes ∷ [])
      ≡ some k)
    × (pops 1 k ≡ map summary (alert_view ∷ []))
unfolding create_stream_parser new_parser
pushed_is_popped_example =
    pushed_is_popped registry (lookup_wire_size registry bound) 15
      (take 3 alert_bytes ∷ drop 3 alert_bytes ∷ []) bound (alert_view ∷ []) Receives-bound
      (omega arith) (omega arith, (omega arith, tt))

-- The packet of the binding is refused.
binding_refused :
    decode_packet_view_with_size
      (encode_packet (some room) 20 12 0 (some alert_payload) 4 1).1
      (encode_packet (some room) 20 12 0 (some alert_payload) 4 1).0
      4
    ≡ fail checksum_mismatch 15
unfolding checksum_bytes load_u32
binding_refused =
    java_packet_decodes room alert_payload 20 0 12 1 4 (omega arith) (omega arith) (omega arith)
      (omega arith) (omega arith) refl
    ∙ ap
        (λ crc.
          if is_palindrome crc
          then record {
            view = some (record { header = java_header 0 12 1; payload = alert_payload });
            error = no_error;
            bytes_consumed = 15;
          }
          else fail checksum_mismatch 15)
        checksum_of_alert
