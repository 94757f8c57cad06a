-- ===== src/Parser/Loop.antt =====
-- `ParseBuffer` and `Push` of stream_parser.cpp, with their loops.
use bcnp.Base.{
  ℕ, zero, suc, ◌+◌, ◌-◌, ◌==◌, Bool, true, false, ◌||◌, ◌&&◌, Option, none, some, List, [], ◌∷◌,
  ltb, ◌/=◌, if◌then◌else◌, min, length, take, drop,
}
use bcnp.Base.Words.{u64}
use bcnp.Wire.{Bytes, byte_at, load_u16}
use bcnp.Message.{MessageInfo}
use bcnp.Packet.Types.{
  PacketError, DecodeViewResult, header_size, protocol_major, protocol_minor, header_major_index,
  header_minor_index, header_msg_type_index, header_msg_count_index, max_messages_per_packet,
  packet_size, unsupported_version, unknown_message_type, too_many_messages, truncated,
  checksum_mismatch, invalid_float,
}
use bcnp.Packet.Decode.{decode_packet_view_with_size}
use bcnp.Parser.{
  StreamParser, emit_packet, emit_error, write_to_buffer, copy_out, discard,
  find_next_header_candidate, lookup_wire_size, max_parse_iterations_per_push,
}

-- How a round ends: `break`, or `continue`.
pub data Round : Type 0 where
  stopped next : StreamParser → Round

abbrev pub is_truncated : PacketError → Bool
is_truncated truncated = true
is_truncated _ = false

-- After these errors only one byte is dropped.
abbrev pub is_poison : PacketError → Bool
is_poison checksum_mismatch = true
is_poison invalid_float = true
is_poison _ = false

-- An error is reported at the place where the frame begins, and `count` bytes are dropped.
abbrev pub reject : StreamParser → PacketError → ℕ → Round
reject p code count = next (discard (emit_error p code p.stream_offset) count)

-- What becomes of the result of the decoder.
unfoldable pub conclude : StreamParser → DecodeViewResult → Round
conclude p result = if is_truncated result.error then stopped p else elim result.view [
  | none ↦
      if is_poison result.error
      then reject p result.error 1
      else reject p result.error (if ltb 0 result.bytes_consumed then result.bytes_consumed else 1)
  | some view ↦
      next (discard (record (emit_packet p view) { consecutive_errors = 0 }) result.bytes_consumed)
]

-- The rest of the loop behind a round.
abbrev pub behind : Round → ℕ → (StreamParser → StreamParser × ℕ) → StreamParser × ℕ
behind (stopped p) budget loop = (p, budget)
behind (next p) budget loop = loop p

module _ (registry : List MessageInfo) where
  -- The part behind the version test.
  unfoldable pub parse_frame : StreamParser → Round
  parse_frame p =
      let message_count = load_u16 p.decode_scratch header_msg_count_index in
      let wire_size =
        lookup_wire_size registry p (load_u16 p.decode_scratch header_msg_type_index) in
      let expected = packet_size message_count wire_size in
      let available = min expected p.size in
      let p' = record p { decode_scratch = copy_out p 0 available p.decode_scratch } in
      if wire_size == 0
      then reject p unknown_message_type 1
      else if ltb max_messages_per_packet message_count
      then reject p too_many_messages 1
      else conclude p' (decode_packet_view_with_size p'.decode_scratch available wire_size)

  -- One round of the loop of `ParseBuffer`, on at least seven bytes.
  unfoldable pub parse_round : StreamParser → Round
  unfolding parse_frame
  parse_round p =
      let p' = record p { decode_scratch = copy_out p 0 header_size p.decode_scratch } in
      let skip = find_next_header_candidate p' in
      if byte_at p'.decode_scratch header_major_index /= protocol_major
        || byte_at p'.decode_scratch header_minor_index /= protocol_minor
      then reject p' unsupported_version (if ltb 0 skip then skip else 1)
      else parse_frame p'

  -- The loop, with the budget that is left at its end.
  unfoldable pub parse_buffer : ℕ → StreamParser → StreamParser × ℕ
  parse_buffer zero p = (p, 0)
  parse_buffer (suc budget) p =
      if ltb p.size header_size
      then (p, suc budget)
      else behind (parse_round p) budget (parse_buffer budget)

-- How the loop of `Push` ends: `return`, or behind it with the budget that is left.
pub data PushEnd : Type 0 where
  returned : StreamParser → PushEnd
  finished : StreamParser → ℕ → PushEnd

abbrev pub is_full : StreamParser → Bool
is_full p = p.size == length p.buffer

-- A buffer that stays full is dropped.
unfoldable pub overflow : StreamParser → StreamParser
overflow p =
    let p' = emit_error p too_many_messages p.stream_offset in
    record p' { stream_offset = u64 (p'.stream_offset + p'.size); head = 0; size = 0 }

module _ (registry : List MessageInfo) where
  abbrev pub make_room : ℕ → StreamParser → StreamParser × ℕ
  make_room budget p = if is_full p then parse_buffer registry budget p else (p, budget)

  -- `none` means that the rounds ran out.
  unfoldable pub push_loop : ℕ → ℕ → StreamParser → Bytes → Option PushEnd
  push_loop rounds budget p [] = some (finished p budget)
  push_loop zero budget p (b ∷ bs) = none
  push_loop (suc rounds) budget p (b ∷ bs) =
      let (p', budget') = make_room budget p in
      let writable = min (length (b ∷ bs)) (length p'.buffer - p'.size) in
      let rest = drop writable (b ∷ bs) in
      let (parsed, left) =
        parse_buffer registry budget' (write_to_buffer p' (take writable (b ∷ bs))) in
      let later = push_loop rounds left parsed rest in
      if is_full p'
      then some (returned (overflow p'))
      else if budget' == 0
      then some (returned p')
      else if writable == 0
      then some (finished p' budget')
      else if left == 0 && ltb 0 (length rest)
      then some (returned parsed)
      else later

  abbrev pub last_parse : PushEnd → StreamParser
  last_parse (returned p) = p
  last_parse (finished p budget) = if ltb 0 budget then (parse_buffer registry budget p).0 else p

  -- Every round takes a byte, so the length is enough. `none` is a null pointer.
  unfoldable pub push : StreamParser → Option Bytes → Option StreamParser
  push p none = some p
  push p (some data_) =
      if length data_ == 0
      then some p
      else elim (push_loop (length data_) max_parse_iterations_per_push p data_) [
        | none ↦ none
        | some end ↦ some (last_parse end)
      ]
