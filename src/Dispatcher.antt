-- ===== src/Dispatcher.antt =====
-- `PacketDispatcher` of dispatcher.h and dispatcher.cpp. Each method holds the mutex throughout and
-- is one step on the state. What the handlers and the error handler change is a value `user` of a
-- type `S`; a handler is a callable function of it, and cannot call the dispatcher again, which holds
-- its mutex. `clock n` is the `n`-th reading of the clock.
pub mod Handlers
pub mod Receive
pub mod Stream
pub mod Errors
use bcnp.Base.{
  ℕ, zero, suc, ◌+◌, ◌-◌, ◌==◌, Bool, true, false, Option, none, some, List, [], ◌∷◌, ◌++◌, leb,
  if◌then◌else◌,
}
use bcnp.Base.Words.{u16, u64}
use bcnp.Wire.{Bytes}
use bcnp.Message.{MessageInfo, MessageType}
use bcnp.Queue.{Time, milliseconds, min_time}
use bcnp.Packet.Types.{PacketView}
use bcnp.Parser.{ErrorInfo, Event, packet, error, StreamParser, new_parser, set_wire_size_lookup}
use bcnp.Parser.Loop.{push}

pub record DispatcherConfig : Type 0 where
  pub parser_buffer_size : ℕ
  pub connection_timeout : ℕ

abbrev pub default_config : DispatcherConfig
default_config = record { parser_buffer_size = 4096; connection_timeout = 200 }

abbrev pub PacketHandler {ℓ} : Type ℓ → Type ℓ
PacketHandler S = PacketView → S → S

abbrev pub ErrorHandler {ℓ} : Type ℓ → Type ℓ
ErrorHandler S = ErrorInfo → S → S

-- The operations of `std::unordered_map` that are used, on a list of entries.
module _ {ℓ} {H : Type ℓ} where
  abbrev pub find : List (ℕ × H) → ℕ → Option H
  find [] id = none
  find (entry ∷ rest) id = if entry.0 == id then some entry.1 else find rest id

  abbrev pub insert_or_assign : List (ℕ × H) → ℕ → H → List (ℕ × H)
  insert_or_assign [] id h = (id, h) ∷ []
  insert_or_assign (entry ∷ rest) id h =
      let others = insert_or_assign rest id h in
      if entry.0 == id then (id, h) ∷ rest else entry ∷ others

  abbrev pub erase : List (ℕ × H) → ℕ → List (ℕ × H)
  erase [] id = []
  erase (entry ∷ rest) id =
      let others = erase rest id in if entry.0 == id then others else entry ∷ others

-- `GetWireSizeFor`
abbrev pub wire_size_for : MessageType → List MessageType → ℕ → ℕ
wire_size_for first [] type_id = if type_id == first.type_id then first.wire_size else 0
wire_size_for first (next ∷ rest) type_id =
    let later = wire_size_for next rest type_id in
    if type_id == first.type_id then first.wire_size else later

pub record PacketDispatcher {ℓ} (S : Type ℓ) : Type ℓ where
  pub config : DispatcherConfig
  pub parser : StreamParser
  pub handlers : List (ℕ × (PacketView → S → S))
  pub error_handler : Option (ErrorInfo → S → S)
  pub last_rx : Time
  pub parse_errors : ℕ
  pub user : S
  pub clock_reads : ℕ

module _ {ℓ} {S : Type ℓ} where
  unfoldable pub new_dispatcher : DispatcherConfig → S → PacketDispatcher S
  new_dispatcher config user = record {
    config = config;
    parser = new_parser true true config.parser_buffer_size;
    handlers = [];
    error_handler = none;
    last_rx = min_time;
    parse_errors = 0;
    user = user;
    clock_reads = 0;
  }

  unfoldable pub register_handler : PacketDispatcher S → ℕ → PacketHandler S → PacketDispatcher S
  register_handler d type_id handler = record d {
    handlers = insert_or_assign d.handlers (u16 type_id) handler;
  }

  unfoldable pub unregister_handler : PacketDispatcher S → ℕ → PacketDispatcher S
  unregister_handler d type_id = record d { handlers = erase d.handlers (u16 type_id) }

  unfoldable pub set_error_handler :
      PacketDispatcher S → Option (ErrorHandler S) → PacketDispatcher S
  set_error_handler d handler = record d { error_handler = handler }

  unfoldable pub is_connected : PacketDispatcher S → Time → Bool
  is_connected d now =
      if d.last_rx == min_time
      then false
      else leb (now - d.last_rx) (milliseconds d.config.connection_timeout)

  unfoldable pub register_message_types :
      PacketDispatcher S → MessageType → List MessageType → PacketDispatcher S
  register_message_types d first rest = record d {
    parser = set_wire_size_lookup d.parser (wire_size_for first rest);
  }

  abbrev pub call_handler : Option (PacketHandler S) → PacketView → S → S
  call_handler none v user = user
  call_handler (some handler) v user = handler v user

  abbrev pub call_error_handler : Option (ErrorHandler S) → ErrorInfo → S → S
  call_error_handler none e user = user
  call_error_handler (some handler) e user = handler e user

  unfoldable pub handle_packet : (ℕ → Time) → PacketDispatcher S → PacketView → PacketDispatcher S
  handle_packet clock d v = record d {
    last_rx = clock d.clock_reads;
    clock_reads = d.clock_reads + 1;
    user = call_handler (find d.handlers (u16 v.header.message_type)) v d.user;
  }

  unfoldable pub handle_error : PacketDispatcher S → ErrorInfo → PacketDispatcher S
  handle_error d e = record d {
    parse_errors = u64 (d.parse_errors + 1);
    user = call_error_handler d.error_handler e d.user;
  }

  -- The callbacks of the parser, one after the other.
  abbrev pub handle_events : (ℕ → Time) → PacketDispatcher S → List Event → PacketDispatcher S
  handle_events clock d [] = d
  handle_events clock d (packet v ∷ events) = handle_events clock (handle_packet clock d v) events
  handle_events clock d (error e ∷ events) = handle_events clock (handle_error d e) events

  -- `none` is a null pointer with a length. The callbacks run while the parser does, and do not reach
  -- it, so they are run behind it.
  unfoldable pub push_bytes :
      List MessageInfo
      → (ℕ → Time)
      → PacketDispatcher S
      → Option Bytes
      → Option (PacketDispatcher S)
  push_bytes registry clock d data_ = elim (push registry (record d.parser { events = [] }) data_) [
    | none ↦ none
    | some p ↦ some (handle_events clock (record d { parser = p }) p.events)
  ]
