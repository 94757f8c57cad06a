-- ===== src/Tests/Packets.antt =====
-- One packet with one `ProximityAlert`, through the checksum, the encoder and the decoder.
use bcnp.Base.{
  ◌<◌, ℕ, ◌*◌, ◌≡◌, ◌≢◌, ◌≤◌, refl, sym, ap, ◌∙◌, arith, some, [], ◌∷◌, ◌++◌, append-nil, length,
  replicate, take, drop, get_or,
}
use bcnp.Wire.{Bytes, u16_bytes, u32_bytes}
use bcnp.Crc.{compute_crc32, crc_loop, crc_byte, crc_entries, make_crc_table, crc_bits, crc_bit}
use bcnp.Crc.Reference.{serial_crc32, compute_crc32-eq-serial_crc32}
use bcnp.Crc.Detect.{compute_crc32_detects_burst}
use bcnp.Message.Structs.{ProximityAlert, proximity_alert, proximity_encode}
use bcnp.Message.Laws.{proximity_alert-IsCodec}
use bcnp.Packet.Types.{
  PacketHeader, PacketView, TypedPacket, default_header, no_error, checksum_mismatch,
}
use bcnp.Packet.Decode.{
  fail, decode_packet_view_with_size, decode_packet_view_as, decode_typed_packet,
}
use bcnp.Wire.{load_u16}
use bcnp.Message.Structs.{proximity_decode}
use bcnp.Packet.Decode.{decode_messages}
use bcnp.Packet.Iterator.{
  MessageIterator, loop_over, begin_as, end_as, loop_over-decode_typed_packet,
}
use bcnp.Packet.Encode.{encode_typed_packet}
use bcnp.Packet.Frame.{InRange, header_bytes, body, frame, payload_of}
use bcnp.Packet.Layout.{wire_header, encode_typed_packet-frame}
use bcnp.Packet.Accept.{IsSupported, with_checksum, decode-frame}
use bcnp.Packet.Accept.Sound.{decode_sound}
use bcnp.Packet.RoundTrip.{decode-encode_typed_packet}
use bcnp.Packet.Corruption.{decode_detects_burst}
use bcnp.Packet.Bounds.{decode-take}

abbrev check_input : Bytes
check_input = b'1' ∷ b'2' ∷ b'3' ∷ b'4' ∷ b'5' ∷ b'6' ∷ b'7' ∷ b'8' ∷ b'9' ∷ []

check_value : compute_crc32 check_input ≡ 0xCBF43926
unfolding compute_crc32 crc_loop crc_byte make_crc_table crc_entries crc_bits crc_bit
check_value = refl

compute_crc32-eq-serial_crc32_example : compute_crc32 check_input ≡ serial_crc32 check_input
compute_crc32-eq-serial_crc32_example = compute_crc32-eq-serial_crc32 check_input (omega arith)

compute_crc32_detects_burst_example :
    compute_crc32 (1 ∷ 2 ∷ 3 ∷ []) ≢ compute_crc32 (1 ∷ 7 ∷ 3 ∷ [])
compute_crc32_detects_burst_example =
    compute_crc32_detects_burst (1 ∷ []) (2 ∷ []) (7 ∷ []) (3 ∷ []) (omega arith) (omega arith)
      (omega arith) (omega arith) (omega arith) refl
      (λ e. absurd (two≢seven (ap (λ l. get_or l 0 0) e)))
  where
    two≢seven : ◌≢◌ {A = ℕ} 2 7
    two≢seven e = omega arith

abbrev pub alert : ProximityAlert
alert = record { sensor_id = 1; distance_mm = 1500; triggered = 1 }

abbrev pub alert_packet : TypedPacket proximity_alert
alert_packet = record {
  header = record default_header { message_type = 12 };
  messages = alert ∷ [];
}

abbrev pub alert_header : PacketHeader
alert_header = record default_header { message_type = 12; message_count = 1 }

abbrev pub alert_payload : Bytes
alert_payload = 1 ∷ 5 ∷ 220 ∷ 1 ∷ []

abbrev buffer : Bytes
buffer = replicate 16 9

pub alert_header-InRange : InRange alert_header
alert_header-InRange = record {
  major_byte = omega arith;
  minor_byte = omega arith;
  flags_byte = omega arith;
  type_u16 = omega arith;
  count_u16 = omega arith;
}

pub payload_of-alert : payload_of proximity_alert (alert ∷ []) ≡ some alert_payload
unfolding payload_of proximity_encode u16_bytes
payload_of-alert = refl

pub checksum_of_alert : compute_crc32 (body alert_header alert_payload) ≡ 0xE8AD5B1F
unfolding compute_crc32 crc_loop crc_byte make_crc_table crc_entries crc_bits crc_bit header_bytes
    u16_bytes
checksum_of_alert = refl

encoded_alert :
    encode_typed_packet proximity_alert alert_packet (some buffer) 16
    ≡ some (frame (wire_header proximity_alert alert_packet) alert_payload ++ drop 15 buffer, 15)
encoded_alert =
    encode_typed_packet-frame proximity_alert alert_packet alert_payload buffer 16
      proximity_alert-IsCodec payload_of-alert (omega arith) (omega arith) (omega arith)

abbrev pub alert_bytes : Bytes
alert_bytes = 3 ∷ 2 ∷ 0 ∷ 0 ∷ 12 ∷ 0 ∷ 1 ∷ 1 ∷ 5 ∷ 220 ∷ 1 ∷ 0xE8 ∷ 0xAD ∷ 0x5B ∷ 0x1F ∷ []

pub frame_of_alert : frame alert_header alert_payload ≡ alert_bytes
unfolding frame header_bytes u16_bytes u32_bytes
frame_of_alert =
    ap (λ c. (3 ∷ 2 ∷ 0 ∷ 0 ∷ 12 ∷ 0 ∷ 1 ∷ 1 ∷ 5 ∷ 220 ∷ 1 ∷ []) ++ u32_bytes c) checksum_of_alert
    ∙ in_bytes
  where
    in_bytes :
        (3 ∷ 2 ∷ 0 ∷ 0 ∷ 12 ∷ 0 ∷ 1 ∷ 1 ∷ 5 ∷ 220 ∷ 1 ∷ []) ++ u32_bytes 0xE8AD5B1F ≡ alert_bytes
    in_bytes = refl

abbrev pub alert_view : PacketView
alert_view = record { header = alert_header; payload = alert_payload }

decode_alert :
    decode_packet_view_with_size alert_bytes 15 4
    ≡ record { view = some alert_view; error = no_error; bytes_consumed = 15 }
decode_alert =
    ap (λ l. decode_packet_view_with_size l 15 4)
      (sym frame_of_alert ∙ sym (append-nil (frame alert_header alert_payload)))
    ∙ decode-frame alert_header alert_payload [] 15 4 alert_header-InRange (refl, refl)
        (omega arith) (omega arith) refl (omega arith)

decode_sound_example :
    IsSupported alert_header
    × InRange alert_header
    × (length alert_payload ≡ 1 * 4)
    × ((decode_packet_view_with_size alert_bytes 15 4).error ≡ no_error)
    × ((decode_packet_view_with_size alert_bytes 15 4).bytes_consumed ≡ 15)
    × (15 ≤ 15)
    × (frame alert_header alert_payload ≡ alert_bytes)
decode_sound_example =
    decode_sound alert_bytes 15 4 alert_view (omega arith) (omega arith) (omega arith)
      (ap (λ r. r.view) decode_alert)

decode-encode_typed_packet_example :
    (v : PacketView) × (decode_packet_view_as proximity_alert
        (frame (wire_header proximity_alert alert_packet) alert_payload ++ drop 15 buffer)
        15
      ≡ record { view = some v; error = no_error; bytes_consumed = 15 })
    × (decode_typed_packet proximity_alert v
        ≡ some
            (record { header = wire_header proximity_alert alert_packet; messages = alert ∷ [] }))
decode-encode_typed_packet_example =
    decode-encode_typed_packet proximity_alert alert_packet buffer
      (frame (wire_header proximity_alert alert_packet) alert_payload ++ drop 15 buffer) 16 15
      proximity_alert-IsCodec (refl, refl) (omega arith) (omega arith) (omega arith) encoded_alert

decode_detects_burst_example :
    decode_packet_view_with_size
      (with_checksum alert_header
        (1 ∷ 6 ∷ 220 ∷ 1 ∷ [])
        (compute_crc32 (body alert_header alert_payload))
        [])
      15
      4
    ≡ fail checksum_mismatch 15
decode_detects_burst_example =
    decode_detects_burst alert_header (1 ∷ []) (5 ∷ []) (6 ∷ []) (220 ∷ 1 ∷ []) [] 15 4
      alert_header-InRange (refl, refl) (omega arith) (omega arith) (omega arith) (omega arith)
      (omega arith) (omega arith) refl (λ e. absurd (five≢six (ap (λ l. get_or l 0 0) e))) refl
      (omega arith)
  where
    five≢six : ◌≢◌ {A = ℕ} 5 6
    five≢six e = omega arith

decode-take_example :
    decode_packet_view_with_size (take 15 (alert_bytes ++ (7 ∷ []))) 15 4
    ≡ decode_packet_view_with_size (alert_bytes ++ (7 ∷ [])) 15 4
decode-take_example = decode-take (alert_bytes ++ (7 ∷ [])) 15 4 (omega arith)

typed_alert :
    decode_typed_packet proximity_alert alert_view
    ≡ some (record { header = alert_header; messages = alert ∷ [] })
unfolding decode_typed_packet decode_messages proximity_decode load_u16
typed_alert = refl

loop_over-decode_typed_packet_example :
    (last : MessageIterator) × (loop_over proximity_alert 3
        (record { sensor_id = 0; distance_mm = 0; triggered = 0 })
        (begin_as proximity_alert alert_view)
        (end_as proximity_alert alert_view)
      ≡ some (alert ∷ [], last))
    × (0 < 1 → last ≡ end_as proximity_alert alert_view)
loop_over-decode_typed_packet_example =
    loop_over-decode_typed_packet proximity_alert 3
      (record { sensor_id = 0; distance_mm = 0; triggered = 0 }) alert_view
      (record { header = alert_header; messages = alert ∷ [] }) (omega arith) typed_alert
