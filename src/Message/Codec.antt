-- ===== src/Message/Codec.antt =====
-- What the packet code uses of a message struct, and what it relies on.
use bcnp.Base.{ℕ, ◌<◌, ◌≡◌, Option, some, All, length, take}
use bcnp.Base.Words.{IsByte, IsU16, IsU32}
use bcnp.Wire.{Bytes}

-- `encode m` is what `m.Encode(out, kWireSize)` writes to `out`, or `none` where it returns false;
-- `decode` is handed the bytes from `data` on, of which `Decode(data, kWireSize)` reads the first
-- `kWireSize`.
pub record MessageType : Type 1 where
  pub Msg : Type 0
  -- Every field holds a value of its C++ type.
  pub InRange : Msg → Type 0
  pub type_id : ℕ
  pub wire_size : ℕ
  pub encode : Msg → Option Bytes
  pub decode : Bytes → Option Msg

-- The contract of a generated struct.
pub record IsCodec (t : MessageType) : Type 0 where
  pub type_id_fits : IsU16 t.type_id
  pub wire_size_fits : IsU32 t.wire_size
  pub wire_size_pos : 0 < t.wire_size
  pub encode_length : (m : t.Msg) (bs : Bytes) → t.encode m ≡ some bs → length bs ≡ t.wire_size
  pub encode_bytes : (m : t.Msg) (bs : Bytes) → t.encode m ≡ some bs → All IsByte bs
  -- Decoding looks at the first `wire_size` bytes only.
  pub decode_front : (bs : Bytes) → t.decode (take t.wire_size bs) ≡ t.decode bs
  pub decode-encode :
      (m : t.Msg) (bs : Bytes) → t.InRange m → t.encode m ≡ some bs → t.decode bs ≡ some m
