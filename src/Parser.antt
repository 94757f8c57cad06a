-- ===== src/Parser.antt =====
-- `StreamParser` of stream_parser.h and stream_parser.cpp: a ring buffer of the bytes that came in,
-- from which packets are cut. A callback is an entry of the list of events, the newest last.
pub mod Loop
pub mod Ring
pub mod Account
pub mod Total
pub mod Rounds
pub mod Deliver
pub mod Sendable
pub mod Wait
pub mod Split
pub mod Chunks
pub mod Stream
pub mod Push
use bcnp.Base.{
  ℕ, zero, suc, ◌+◌, ◌-◌, ◌%◌, ◌==◌, Bool, true, false, ◌||◌, Option, none, some, List, [], ◌∷◌,
  ◌++◌, ltb, leb, ◌/=◌, if◌then◌else◌, min, length, get_or, take, drop, replicate, write_at,
}
use bcnp.Base.Words.{u64}
use bcnp.Wire.{Bytes}
use bcnp.Message.{MessageInfo, get_message_info, wire_size_of}
use bcnp.Packet.Types.{
  PacketView, PacketError, header_size, checksum_size, protocol_major, protocol_minor,
}

-- `StreamParser::ErrorInfo`
pub record ErrorInfo : Type 0 where
  pub code : PacketError
  pub offset : ℕ
  pub consecutive_errors : ℕ

-- The two callbacks.
pub data Event : Type 0 where
  packet : PacketView → Event
  error : ErrorInfo → Event

abbrev pub max_parse_iterations_per_push : ℕ
max_parse_iterations_per_push = 1024

-- `on_packet` and `on_error` are whether there is such a callback.
pub record StreamParser : Type 0 where
  pub on_packet : Bool
  pub on_error : Bool
  pub wire_size_lookup : Option (ℕ → ℕ)
  pub buffer : Bytes
  pub decode_scratch : Bytes
  pub head : ℕ
  pub size : ℕ
  pub stream_offset : ℕ
  pub consecutive_errors : ℕ
  pub events : List Event

unfoldable pub new_parser : Bool → Bool → ℕ → StreamParser
new_parser on_packet on_error buffer_size =
    let n =
      if ltb buffer_size (header_size + checksum_size)
      then header_size + checksum_size
      else buffer_size in
    record {
      on_packet = on_packet;
      on_error = on_error;
      wire_size_lookup = none;
      buffer = replicate n 0;
      decode_scratch = replicate n 0;
      head = 0;
      size = 0;
      stream_offset = 0;
      consecutive_errors = 0;
      events = [];
    }

unfoldable pub set_wire_size_lookup : StreamParser → (ℕ → ℕ) → StreamParser
set_wire_size_lookup p lookup = record p { wire_size_lookup = some lookup }

unfoldable pub reset : StreamParser → Bool → StreamParser
reset p reset_error_state =
    let cleared = record p { head = 0; size = 0 } in
    if reset_error_state
    then record cleared { consecutive_errors = 0; stream_offset = 0 }
    else cleared

unfoldable pub emit_packet : StreamParser → PacketView → StreamParser
emit_packet p v = if p.on_packet then record p { events = p.events ++ (packet v ∷ []) } else p

unfoldable pub emit_error : StreamParser → PacketError → ℕ → StreamParser
emit_error p code offset =
    let errors = u64 (p.consecutive_errors + 1) in
    let info : ErrorInfo = record { code = code; offset = offset; consecutive_errors = errors } in
    if p.on_error
    then record p { consecutive_errors = errors; events = p.events ++ (error info ∷ []) }
    else p

-- The two `memcpy` of a write that may go round the end of the buffer.
unfoldable pub write_to_buffer : StreamParser → Bytes → StreamParser
write_to_buffer p data_ =
    let tail_index = (p.head + p.size) % length p.buffer in
    let first_chunk = min (length data_) (length p.buffer - tail_index) in
    let first = write_at p.buffer tail_index (take first_chunk data_) in
    let remaining = length data_ - first_chunk in
    let both = if ltb 0 remaining then write_at first 0 (drop first_chunk data_) else first in
    record p { buffer = both; size = p.size + length data_ }

-- The result is the destination after the two `memcpy`.
unfoldable pub copy_out : StreamParser → ℕ → ℕ → Bytes → Bytes
copy_out p offset n dest =
    let start_index = (p.head + offset) % length p.buffer in
    let first_chunk = min n (length p.buffer - start_index) in
    let first = write_at dest 0 (take first_chunk (drop start_index p.buffer)) in
    let remaining = n - first_chunk in
    if ltb 0 remaining then write_at first first_chunk (take remaining p.buffer) else first

unfoldable pub discard : StreamParser → ℕ → StreamParser
discard p count =
    if count == 0 || p.size == 0
    then p
    else let n = if ltb p.size count then p.size else count in
      record p {
        head = (p.head + n) % length p.buffer;
        size = p.size - n;
        stream_offset = u64 (p.stream_offset + n);
      }

-- The loop of `FindNextHeaderCandidate` over the `rounds` offsets that are left.
unfoldable pub find_candidate : ℕ → StreamParser → ℕ → ℕ
find_candidate zero p offset = 1
find_candidate (suc rounds) p offset =
    let rest = find_candidate rounds p (offset + 1) in
    let first = get_or p.buffer ((p.head + offset) % length p.buffer) 0 in
    let second = get_or p.buffer ((p.head + offset + 1) % length p.buffer) 0 in
    if first /= protocol_major
    then rest
    else if leb p.size (offset + 1)
    then offset
    else if second == protocol_minor
    then offset
    else rest

unfoldable pub find_next_header_candidate : StreamParser → ℕ
unfolding find_candidate
find_next_header_candidate p =
    if leb p.size 1 then (if p.size == 0 then 0 else 1) else find_candidate (p.size - 1) p 1

module _ (registry : List MessageInfo) where
  unfoldable pub lookup_wire_size : StreamParser → ℕ → ℕ
  lookup_wire_size p type_id = elim p.wire_size_lookup [
    | some lookup ↦ lookup type_id
    | none ↦ wire_size_of (get_message_info registry type_id)
  ]
