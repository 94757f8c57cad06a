-- ===== src/Jni/Encoded.antt =====
-- What the Java binding encodes, and what the decoder says to it.
use bcnp.Base.{
  ℕ, ◌+◌, ◌^◌, ◌≤◌, ◌<◌, ◌≡◌, refl, sym, ap, ap₂, ◌∙◌, arith, not, some, [], ◌∷◌, ◌++◌, append-nil,
  append_assoc, if◌then◌else◌, ltb, length, length-drop, take, drop, take-all, take-append,
  drop-drop, All, write_at,
}
use bcnp.Base.Words.{IsByte, u8, u16, u64}
use bcnp.Base.Chunks.{write_at_behind}
use bcnp.Wire.{Bytes, u16_bytes}
use bcnp.Crc.{compute_crc32}
use bcnp.Packet.Types.{PacketHeader}
use bcnp.Packet.Frame.{header_bytes, body, InRange, length-header_bytes, length-body}
use bcnp.Jni.{write_header, checksum_bytes, write_checksum, encode_packet, is_positive, size_of}
use bcnp.Base.Choices.{pick_true, pick_false}

-- The header that the binding writes.
abbrev pub java_header : ℕ → ℕ → ℕ → PacketHeader
java_header flags message_type message_count = record {
  major = 3;
  minor = 2;
  flags = u8 flags;
  message_type = u16 message_type;
  message_count = u16 message_count;
}

pub java_header-InRange : (f t c : ℕ) → InRange (java_header f t c)
java_header-InRange f t c = record {
  major_byte = omega arith;
  minor_byte = omega arith;
  flags_byte = omega arith;
  type_u16 = omega arith;
  count_u16 = omega arith;
}

pub length-checksum_bytes : (crc : ℕ) → length (checksum_bytes crc) ≡ 4
unfolding checksum_bytes
length-checksum_bytes crc = refl

pub checksum_bytes-All-IsByte : (crc : ℕ) → All IsByte (checksum_bytes crc)
unfolding checksum_bytes
checksum_bytes-All-IsByte crc = (omega arith, (omega arith, (omega arith, (omega arith, tt))))

write_header_lem :
    (f t c : ℕ) (dest : Bytes)
    → 7 ≤ length dest
    → write_header f t c dest ≡ header_bytes (java_header f t c) ++ drop 7 dest
unfolding write_header header_bytes u16_bytes
write_header_lem f t c (a ∷ b ∷ d ∷ e ∷ g ∷ h ∷ i ∷ rest) le = refl
write_header_lem f t c _ le = absurd (omega arith)

-- The checksum goes behind the bytes that it covers.
write_checksum_lem :
    (front back : Bytes) (n : ℕ)
    → length front ≡ n
    → 4 ≤ length back
    → write_checksum n (front ++ back)
      ≡ front ++ (checksum_bytes (compute_crc32 front) ++ drop 4 back)
unfolding write_checksum
write_checksum_lem front back n e le =
    let crc = checksum_bytes (compute_crc32 front) in
    let len = length-checksum_bytes (compute_crc32 front) in
    ap (λ l. write_at (front ++ back) n (checksum_bytes (compute_crc32 l)))
      (take-append n front back e)
    ∙ write_at_behind 0 0 front back crc n e (omega (arith, len))
    ∙ append_assoc front crc (drop (length crc) back)
    ∙ ap (λ k. front ++ (crc ++ drop k back)) len

-- The payload goes behind the header, if there is one.
fill_lem :
    (header payload rest : Bytes)
    → length header ≡ 7
    → length payload < 2 ^ 31
    → length payload ≤ length rest
    → (if is_positive (length payload)
        then write_at (header ++ rest) 7 (take (size_of (length payload)) payload)
        else header ++ rest)
      ≡ (header ++ payload) ++ drop (length payload) rest
fill_lem header [] rest seven small room = ap (λ l. l ++ rest) (sym (append-nil header))
fill_lem header (x ∷ xs) rest seven small room =
    pick_true {b = is_positive (length (x ∷ xs))} _ _ (ground arith)
    ∙ ap (write_at (header ++ rest) 7)
        (take-all (size_of (length (x ∷ xs))) (x ∷ xs) (ground arith))
    ∙ write_at_behind 0 0 header rest (x ∷ xs) 7 seven room

-- With room for it, the binding writes the header and the payload and the checksum behind them, lowest
-- byte first, leaves the rest of the buffer alone, and returns the size of it all.
pub encode_packet_lem :
    (dest payload : Bytes) (max_length f t c : ℕ)
    → 11 + length payload ≤ max_length
    → max_length ≤ length dest
    → max_length < 2 ^ 31
    → let h = java_header f t c in
      let sum = checksum_bytes (compute_crc32 (body h payload)) in
      encode_packet (some dest) max_length t f (some payload) (length payload) c
      ≡ (11 + length payload, body h payload ++ (sum ++ drop (11 + length payload) dest))
unfolding encode_packet
encode_packet_lem dest payload max_length f t c room fits small =
    let h = java_header f t c in
    let n = length payload in
    let rest = drop n (drop 7 dest) in
    let size : size_of n ≡ n = ground arith in
    let total : u64 (7 + size_of n + 4) ≡ 11 + n = omega (arith, size) in
    let left : 4 ≤ length rest = omega (arith, length-drop n (drop 7 dest), length-drop 7 dest) in
    pick_false {b = not (is_positive max_length)} _ _ (ground arith)
    ∙ pick_false {b = ltb (size_of max_length) (u64 (7 + size_of n + 4))} _ _
        (ground (arith, total))
    ∙ ap₂ (λ k l. (k, l)) (omega (arith, total))
        (ap₂
            (λ k l.
              write_checksum k
                (if is_positive n then write_at l 7 (take (size_of n) payload) else l))
            (let at : u64 (7 + size_of n) ≡ 7 + n = omega (arith, size) in at)
            (write_header_lem f t c dest (omega arith))
          ∙ ap (write_checksum (7 + n)) (
              fill_lem (header_bytes h) payload (drop 7 dest) (length-header_bytes h) (omega arith)
                (omega (arith, length-drop 7 dest)))
          ∙ write_checksum_lem (body h payload) rest (7 + n) (length-body h payload) left
          ∙ ap (λ l. body h payload ++ (checksum_bytes (compute_crc32 (body h payload)) ++ l))
              (drop-drop 4 n (drop 7 dest)
                ∙ drop-drop (n + 4) 7 dest
                ∙ ap (λ k. drop k dest) (let q : 7 + (n + 4) ≡ 11 + n = omega arith in q)))
