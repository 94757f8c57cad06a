-- ===== src/Message/Laws.antt =====
-- The two structs meet the contract of a generated struct.
use bcnp.Base.{◌≡◌, refl, ◌∙◌, arith, some, [], ◌∷◌, ◌++◌, take, get_or-take}
use bcnp.Base.Words.{u8, IsByte, IsU16, IsU32}
use bcnp.Wire.{Bytes, byte_at, load_u16, load_u32, u16_bytes, u32_bytes}
use bcnp.Wire.RoundTrip.{load_u16-u16_bytes, load_u32-u32_bytes}
use bcnp.Wire.RoundTrip.{
  load_u16-cons, load_u16-take, load_u32-cons, load_u32-take, load_u32-append,
}
use bcnp.Message.Codec.{IsCodec}
use bcnp.Message.Structs.{ProximityAlert, proximity_encode, proximity_decode, proximity_alert}
use bcnp.Message.Structs.{EncoderData, encoder_encode, encoder_decode, encoder_data}

proximity_bytes : ProximityAlert → Bytes
proximity_bytes m = (u8 m.sensor_id ∷ u16_bytes m.distance_mm) ++ (u8 m.triggered ∷ [])

distance :
    (m : ProximityAlert) → IsU16 m.distance_mm → load_u16 (proximity_bytes m) 1 ≡ m.distance_mm
unfolding proximity_bytes
distance m h =
    load_u16-cons (u8 m.sensor_id) (u16_bytes m.distance_mm ++ (u8 m.triggered ∷ []))
    ∙ load_u16-u16_bytes m.distance_mm (u8 m.triggered ∷ []) h

proximity_decode-bytes :
    (m : ProximityAlert)
    → IsByte m.sensor_id
    → IsU16 m.distance_mm
    → IsByte m.triggered
    → proximity_decode (proximity_bytes m) 4 ≡ some m
unfolding proximity_decode
proximity_decode-bytes m hs hd ht =
    λ i. some (record { sensor_id = id i; distance_mm = distance m hd i; triggered = last i })
  where
    id : byte_at (proximity_bytes m) 0 ≡ m.sensor_id
    id = unfold proximity_bytes in (omega arith)

    last : byte_at (proximity_bytes m) 3 ≡ m.triggered
    last = unfold proximity_bytes u16_bytes in (omega arith)

proximity_decode_front : (bs : Bytes) → proximity_decode (take 4 bs) 4 ≡ proximity_decode bs 4
unfolding proximity_decode
proximity_decode_front bs = λ i. some (record {
  sensor_id = get_or-take 4 bs 0 0 (omega arith) i;
  distance_mm = load_u16-take 4 bs 1 (omega arith) i;
  triggered = get_or-take 4 bs 3 0 (omega arith) i;
})

proximity_encode_inv :
    (m : ProximityAlert) (bs : Bytes) → proximity_encode m 4 ≡ some bs → proximity_bytes m ≡ bs
unfolding proximity_encode proximity_bytes
proximity_encode_inv m bs e = cc

-- `ProximityAlert` meets the contract of a generated struct: the encoding has the wire size and holds
-- bytes, decoding looks at no more than that, and it gives back a message whose fields are in range.
pub proximity_alert-IsCodec : IsCodec proximity_alert
proximity_alert-IsCodec = record {
  type_id_fits = omega arith;
  wire_size_fits = omega arith;
  wire_size_pos = omega arith;
  encode_length =
      λ m bs e. rw (← proximity_encode_inv m bs e) (unfold proximity_bytes u16_bytes in refl);
  encode_bytes = λ m bs e.
      rw (← proximity_encode_inv m bs e) (unfold proximity_bytes u16_bytes in omega arith);
  decode_front = proximity_decode_front;
  decode-encode =
      λ m bs r e. rw (← proximity_encode_inv m bs e) (proximity_decode-bytes m r.0 r.1 r.2);
}

encoder_bytes : EncoderData → Bytes
encoder_bytes m = (u8 m.module_id ∷ u32_bytes m.position) ++ u32_bytes m.velocity

position : (m : EncoderData) → IsU32 m.position → load_u32 (encoder_bytes m) 1 ≡ m.position
unfolding encoder_bytes
position m h =
    load_u32-cons (u8 m.module_id) (u32_bytes m.position ++ u32_bytes m.velocity)
    ∙ load_u32-u32_bytes m.position (u32_bytes m.velocity) h

velocity : (m : EncoderData) → IsU32 m.velocity → load_u32 (encoder_bytes m) 5 ≡ m.velocity
unfolding encoder_bytes u32_bytes
velocity m h =
    load_u32-append (u8 m.module_id ∷ u32_bytes m.position) (u32_bytes m.velocity)
    ∙ load_u32-u32_bytes m.velocity [] h

encoder_decode-bytes :
    (m : EncoderData)
    → IsByte m.module_id
    → IsU32 m.position
    → IsU32 m.velocity
    → encoder_decode (encoder_bytes m) 9 ≡ some m
unfolding encoder_decode
encoder_decode-bytes m hm hp hv =
    λ i. some (record { module_id = id i; position = position m hp i; velocity = velocity m hv i })
  where
    id : byte_at (encoder_bytes m) 0 ≡ m.module_id
    id = unfold encoder_bytes in (omega arith)

encoder_decode_front : (bs : Bytes) → encoder_decode (take 9 bs) 9 ≡ encoder_decode bs 9
unfolding encoder_decode
encoder_decode_front bs = λ i. some (record {
  module_id = get_or-take 9 bs 0 0 (omega arith) i;
  position = load_u32-take 9 bs 1 (omega arith) i;
  velocity = load_u32-take 9 bs 5 (omega arith) i;
})

encoder_encode_inv :
    (m : EncoderData) (bs : Bytes) → encoder_encode m 9 ≡ some bs → encoder_bytes m ≡ bs
unfolding encoder_encode encoder_bytes
encoder_encode_inv m bs e = cc

-- `EncoderData` meets the contract of a generated struct, in the same way.
pub encoder_data-IsCodec : IsCodec encoder_data
encoder_data-IsCodec = record {
  type_id_fits = omega arith;
  wire_size_fits = omega arith;
  wire_size_pos = omega arith;
  encode_length =
      λ m bs e. rw (← encoder_encode_inv m bs e) (unfold encoder_bytes u32_bytes in refl);
  encode_bytes =
      λ m bs e. rw (← encoder_encode_inv m bs e) (unfold encoder_bytes u32_bytes in omega arith);
  decode_front = encoder_decode_front;
  decode-encode = λ m bs r e. rw (← encoder_encode_inv m bs e) (encoder_decode-bytes m r.0 r.1 r.2);
}
