-- ===== src/Tests/Parsers.antt =====
-- A parser with a ring of 64 bytes, and one packet that is pushed into it.
use bcnp.Base.{
  ◌+◌, ◌*◌, ◌==◌, if◌then◌else◌, ◌≡◌, ◌≤◌, refl, sym, ap, ◌∙◌, arith, true, some, [], ◌∷◌, ◌++◌,
  append-nil, inl, length, take, drop,
}
use bcnp.Message.{message_registry}
use bcnp.Packet.Frame.{frame}
use bcnp.Parser.{StreamParser, new_parser, set_wire_size_lookup, write_to_buffer, lookup_wire_size}
use bcnp.Parser.Loop.{parse_buffer, push}
use bcnp.Parser.Ring.{IsValid, content, new_parser-IsValid, write_to_buffer_refines}
use bcnp.Parser.Account.{Advanced, parse_buffer_accounts}
use bcnp.Parser.Total.{push_returns}
use bcnp.Parser.Sendable.{frames, IsSendable}
use bcnp.Parser.Stream.{Streamed}
use bcnp.Parser.Chunks.{Receives, concat, push_all, push_all_delivers}
use bcnp.Parser.Push.{push_delivers}
use bcnp.Tests.Packets.{
  alert_header, alert_payload, alert_bytes, alert_view, alert_header-InRange, frame_of_alert,
}

abbrev pub parser : StreamParser
parser = set_wire_size_lookup (new_parser true true 64) (λ n. if n == 12 then 4 else 0)

pub parser-IsValid : IsValid parser
unfolding set_wire_size_lookup
parser-IsValid =
    let v = new_parser-IsValid true true 64 in
    record {
      roomy = v.roomy;
      scratch_length = v.scratch_length;
      head_in = v.head_in;
      size_le = v.size_le;
      offset_fits = v.offset_fits;
    }

abbrev filled : StreamParser
filled = write_to_buffer parser alert_bytes

parser_fits : parser.size + length alert_bytes ≤ length parser.buffer
unfolding new_parser set_wire_size_lookup
parser_fits = omega arith

filled-IsValid : IsValid filled
filled-IsValid = (write_to_buffer_refines parser alert_bytes parser-IsValid parser_fits).1

pub parser_empty : content parser ≡ []
unfolding new_parser set_wire_size_lookup
parser_empty = refl

filled_holds : content filled ≡ frame alert_header alert_payload ++ []
filled_holds =
    (write_to_buffer_refines parser alert_bytes parser-IsValid parser_fits).0
    ∙ ap (λ l. l ++ alert_bytes) parser_empty
    ∙ sym frame_of_alert
    ∙ sym (append-nil (frame alert_header alert_payload))

filled_size : filled.size ≡ 15
unfolding new_parser set_wire_size_lookup write_to_buffer
filled_size = refl

parse_buffer_accounts_example : Advanced filled (parse_buffer message_registry 1024 filled).0
parse_buffer_accounts_example = parse_buffer_accounts message_registry 1024 filled filled-IsValid

push_returns_example :
    (q : StreamParser) × (push message_registry parser (some alert_bytes) ≡ some q) × IsValid q
push_returns_example = push_returns message_registry parser (some alert_bytes) parser-IsValid

pub alert_size : lookup_wire_size message_registry parser 12 ≡ 4
unfolding new_parser set_wire_size_lookup lookup_wire_size
alert_size = refl

alert_size_filled : lookup_wire_size message_registry filled 12 ≡ 4
unfolding new_parser set_wire_size_lookup write_to_buffer lookup_wire_size
alert_size_filled = refl

pub alert_view-IsSendable : IsSendable (lookup_wire_size message_registry parser) alert_view
alert_view-IsSendable = record {
  range = alert_header-InRange;
  version = (refl, refl);
  bytes = omega arith;
  size_pos = omega (arith, alert_size);
  size_fits = omega (arith, alert_size);
  payload_length = sym (ap (λ n. 1 * n) alert_size);
}

push_delivers_example :
    (q : StreamParser) × (push message_registry parser (some alert_bytes) ≡ some q)
    × Streamed parser q (alert_view ∷ []) []
unfolding new_parser set_wire_size_lookup
push_delivers_example =
    push_delivers message_registry (lookup_wire_size message_registry parser) parser 3
      (drop 1 alert_bytes) [] (alert_view ∷ []) parser-IsValid on (λ n. refl)
      (alert_view-IsSendable, tt) whole (inl (omega arith)) (omega arith) parser_fits
  where
    on : parser.on_packet ≡ true
    on = refl

    whole : content parser ++ alert_bytes ≡ frames (alert_view ∷ []) ++ []
    whole =
        ap (λ l. l ++ alert_bytes) parser_empty
        ∙ sym frame_of_alert
        ∙ sym (append-nil (frame alert_header alert_payload))
        ∙ sym (append-nil (frame alert_header alert_payload ++ []))

pub Receives-alert :
    Receives message_registry
      (lookup_wire_size message_registry parser)
      15
      parser
      (alert_view ∷ [])
      (concat (take 3 alert_bytes ∷ drop 3 alert_bytes ∷ []))
unfolding new_parser set_wire_size_lookup
Receives-alert = record {
  valid = parser-IsValid;
  on_packet = refl;
  known = λ n. refl;
  sendable = (alert_view-IsSendable, tt);
  short = (omega arith, tt);
  stream =
      ap (λ l. l ++ alert_bytes) parser_empty
      ∙ sym frame_of_alert
      ∙ sym (append-nil (frame alert_header alert_payload));
  owes = omega (arith, ap length parser_empty);
  small = omega arith;
}

push_all_delivers_example :
    (q : StreamParser) × (push_all message_registry parser
        (take 3 alert_bytes ∷ drop 3 alert_bytes ∷ [])
      ≡ some q)
    × Streamed parser q (alert_view ∷ []) []
unfolding new_parser set_wire_size_lookup
push_all_delivers_example =
    push_all_delivers message_registry (lookup_wire_size message_registry parser) 15
      (take 3 alert_bytes ∷ drop 3 alert_bytes ∷ []) parser (alert_view ∷ []) Receives-alert
      (omega arith) (omega arith, (omega arith, tt))
