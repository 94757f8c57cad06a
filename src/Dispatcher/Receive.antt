-- ===== src/Dispatcher/Receive.antt =====
-- The packets of a stream go to their handlers.
use bcnp.Base.{
  ℕ, ap₂, length-append, zero, suc, ◌+◌, ◌≡◌, refl, sym, ap, ◌∙◌, arith, List, [], ◌∷◌, ◌++◌,
  length,
}
use bcnp.Base.Words.{u16}
use bcnp.Wire.{Bytes}
use bcnp.Message.{MessageInfo}
use bcnp.Queue.{Time}
use bcnp.Packet.Types.{PacketView}
use bcnp.Parser.{Event, packet, error, StreamParser, lookup_wire_size}
use bcnp.Parser.Sendable.{packets}
use bcnp.Parser.Chunks.{Receives}
use bcnp.Dispatcher.{
  PacketDispatcher, PacketHandler, find, call_handler, handle_packet, handle_error, handle_events,
}

-- The last of `n` readings, the first of which has the number `reads`.
abbrev pub last_reading : (ℕ → Time) → ℕ → Time → ℕ → Time
last_reading clock reads last zero = last
last_reading clock reads last (suc n) = clock (reads + n)

last_reading-add :
    (clock : ℕ → Time) (n m reads : ℕ) (last : Time)
    → last_reading clock (reads + n) (last_reading clock reads last n) m
      ≡ last_reading clock reads last (n + m)
last_reading-add clock n zero reads last = ap (last_reading clock reads last) (omega arith)
last_reading-add clock n (suc m) reads last = rw later (ap clock (omega arith))
  where
    later : n + suc m ≡ suc (n + m)
    later = omega arith

pub last_reading-first :
    (clock : ℕ → Time) (n reads : ℕ) (last : Time)
    → last_reading clock (reads + 1) (clock reads) n ≡ last_reading clock reads last (suc n)
last_reading-first clock zero reads last = ap clock (omega arith)
last_reading-first clock (suc n) reads last = ap clock (omega arith)

module _ {ℓ} {S : Type ℓ} where
  -- What the handlers make of the packets, in their order.
  abbrev pub dispatched : List (ℕ × PacketHandler S) → List PacketView → S → S
  dispatched handlers [] user = user
  dispatched handlers (v ∷ vs) user =
      dispatched handlers vs (call_handler (find handlers (u16 v.header.message_type)) v user)

  -- What a dispatcher is after these packets.
  pub record Dispatched (clock : ℕ → Time) (d e : PacketDispatcher S) (vs : List PacketView)
      : Type ℓ where
    pub user : e.user ≡ dispatched d.handlers vs d.user
    pub last_rx : e.last_rx ≡ last_reading clock d.clock_reads d.last_rx (length vs)
    pub clock_reads : e.clock_reads ≡ d.clock_reads + length vs
    pub parse_errors : e.parse_errors ≡ d.parse_errors
    pub handlers : e.handlers ≡ d.handlers
    pub error_handler : e.error_handler ≡ d.error_handler
    pub config : e.config ≡ d.config

  dispatched-append :
      (handlers : List (ℕ × PacketHandler S)) (vs ws : List PacketView) (user : S)
      → dispatched handlers (vs ++ ws) user ≡ dispatched handlers ws (dispatched handlers vs user)
  dispatched-append handlers [] ws user = refl
  dispatched-append handlers (v ∷ vs) ws user =
      dispatched-append handlers vs ws
        (call_handler (find handlers (u16 v.header.message_type)) v user)

  pub Dispatched-handle_events :
      (clock : ℕ → Time) (d : PacketDispatcher S) (vs : List PacketView)
      → Dispatched clock d (handle_events clock d (packets vs)) vs
  unfolding handle_packet
  Dispatched-handle_events clock d [] = record {
    user = refl;
    last_rx = refl;
    clock_reads = omega arith;
    parse_errors = refl;
    handlers = refl;
    error_handler = refl;
    config = refl;
  }
  Dispatched-handle_events clock d (v ∷ vs) =
      let later = Dispatched-handle_events clock (handle_packet clock d v) vs in
      record {
        user = later.user;
        last_rx = later.last_rx ∙ last_reading-first clock (length vs) d.clock_reads d.last_rx;
        clock_reads = omega (arith, later.clock_reads);
        parse_errors = later.parse_errors;
        handlers = later.handlers;
        error_handler = later.error_handler;
        config = later.config;
      }

  pub Dispatched-trans :
      {clock : ℕ → Time} {c d e : PacketDispatcher S} {vs ws : List PacketView}
      → Dispatched clock c d vs
      → Dispatched clock d e ws
      → Dispatched clock c e (vs ++ ws)
  Dispatched-trans {clock} {c} {d} {e} {vs} {ws} a b = record {
    user =
        b.user
        ∙ ap₂ (λ hs u. dispatched hs ws u) a.handlers a.user
        ∙ sym (dispatched-append c.handlers vs ws c.user);
    last_rx =
        b.last_rx
        ∙ ap₂ (λ n t. last_reading clock n t (length ws)) a.clock_reads a.last_rx
        ∙ last_reading-add clock (length vs) (length ws) c.clock_reads c.last_rx
        ∙ ap (last_reading clock c.clock_reads c.last_rx) (omega (arith, length-append vs ws));
    clock_reads = omega (arith, a.clock_reads, b.clock_reads, length-append vs ws);
    parse_errors = b.parse_errors ∙ a.parse_errors;
    handlers = b.handlers ∙ a.handlers;
    error_handler = b.error_handler ∙ a.error_handler;
    config = b.config ∙ a.config;
  }

pub unlogged :
    (registry : List MessageInfo) (wire_size : ℕ → ℕ) (longest : ℕ) (p : StreamParser)
    (vs : List PacketView) (later : Bytes)
    → Receives registry wire_size longest p vs later
    → Receives registry wire_size longest (record p { events = [] }) vs later
unfolding lookup_wire_size
unlogged registry wire_size longest p vs later r = record {
  valid = record {
    roomy = r.valid.roomy;
    scratch_length = r.valid.scratch_length;
    head_in = r.valid.head_in;
    size_le = r.valid.size_le;
    offset_fits = r.valid.offset_fits;
  };
  on_packet = r.on_packet;
  known = r.known;
  sendable = r.sendable;
  short = r.short;
  stream = r.stream;
  owes = r.owes;
  small = r.small;
}

module _ {ℓ} {S : Type ℓ} (clock : ℕ → Time) where
  pub handle_events-parser :
      (d : PacketDispatcher S) (es : List Event) → (handle_events clock d es).parser ≡ d.parser
  unfolding handle_packet handle_error
  handle_events-parser d [] = refl
  handle_events-parser d (packet v ∷ es) = handle_events-parser (handle_packet clock d v) es
  handle_events-parser d (error e ∷ es) = handle_events-parser (handle_error d e) es

  pub reparsed :
      (d e : PacketDispatcher S) (q : StreamParser) (vs : List PacketView)
      → Dispatched clock (record d { parser = q }) e vs
      → Dispatched clock d e vs
  reparsed d e q vs s = record {
    user = s.user;
    last_rx = s.last_rx;
    clock_reads = s.clock_reads;
    parse_errors = s.parse_errors;
    handlers = s.handlers;
    error_handler = s.error_handler;
    config = s.config;
  }
