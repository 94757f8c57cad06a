-- ===== src/Message/Structs.antt =====
-- Two generated message structs of tests/generated/bcnp/message_types.h, which hold no float:
-- `EncoderData` and `ProximityAlert`. A signed field is its 32-bit pattern.
use bcnp.Base.{ℕ, Option, none, some, [], ◌∷◌, ◌++◌, ltb, if◌then◌else◌}
use bcnp.Base.Words.{u8, IsByte, IsU16, IsU32}
use bcnp.Wire.{Bytes, byte_at, load_u16, load_u32, u16_bytes, u32_bytes}
use bcnp.Message.Codec.{MessageType}

pub record ProximityAlert : Type 0 where
  pub sensor_id : ℕ
  pub distance_mm : ℕ
  pub triggered : ℕ

unfoldable pub proximity_encode : ProximityAlert → ℕ → Option Bytes
proximity_encode m capacity =
    if ltb capacity 4
    then none
    else some ((u8 m.sensor_id ∷ u16_bytes m.distance_mm) ++ (u8 m.triggered ∷ []))

unfoldable pub proximity_decode : Bytes → ℕ → Option ProximityAlert
proximity_decode data_ size =
    if ltb size 4
    then none
    else some (record {
      sensor_id = byte_at data_ 0;
      distance_mm = load_u16 data_ 1;
      triggered = byte_at data_ 3;
    })

abbrev pub proximity_alert : MessageType
proximity_alert = record {
  Msg = ProximityAlert;
  InRange = λ m. IsByte m.sensor_id × IsU16 m.distance_mm × IsByte m.triggered;
  type_id = 12;
  wire_size = 4;
  encode = λ m. proximity_encode m 4;
  decode = λ bs. proximity_decode bs 4;
}

pub record EncoderData : Type 0 where
  pub module_id : ℕ
  pub position : ℕ
  pub velocity : ℕ

unfoldable pub encoder_encode : EncoderData → ℕ → Option Bytes
encoder_encode m capacity =
    if ltb capacity 9
    then none
    else some ((u8 m.module_id ∷ u32_bytes m.position) ++ u32_bytes m.velocity)

unfoldable pub encoder_decode : Bytes → ℕ → Option EncoderData
encoder_decode data_ size =
    if ltb size 9
    then none
    else some (record {
      module_id = byte_at data_ 0;
      position = load_u32 data_ 1;
      velocity = load_u32 data_ 5;
    })

abbrev pub encoder_data : MessageType
encoder_data = record {
  Msg = EncoderData;
  InRange = λ m. IsByte m.module_id × IsU32 m.position × IsU32 m.velocity;
  type_id = 11;
  wire_size = 9;
  encode = λ m. encoder_encode m 9;
  decode = λ bs. encoder_decode bs 9;
}
