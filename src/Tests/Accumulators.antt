-- ===== src/Tests/Accumulators.antt =====
-- A vector with room for four messages on top of lists, and an accumulator over it.
use bcnp.Base.{
  ℕ, ◌-◌, ◌==◌, ◌≡◌, refl, arith, none, some, List, [], ◌∷◌, ◌++◌, length, length-take,
  length-append, length-set, get_or, set, take, take-all, ltb, lt→ltb, le→ltb, leb, if◌then◌else◌,
}
use bcnp.Message.Structs.{ProximityAlert, proximity_alert}
use bcnp.Message.Laws.{proximity_alert-IsCodec}
use bcnp.Packet.Decode.{decode_typed_packet}
use bcnp.Packet.Frame.{frame}
use bcnp.Packet.Layout.{wire_header}
use bcnp.Parser.Sendable.{IsSendable}
use bcnp.Driver.Send.{view_of}
use bcnp.Storage.{Storage, IsStorage}
use bcnp.Storage.Vector.{StaticVector}
use bcnp.Telemetry.{TelemetryAccumulator, new_accumulator, record_batch, force_flush}
use bcnp.Telemetry.Recording.{Recorded, record_batch_refines}
use bcnp.Telemetry.Flushing.{counted, packet_of, force_flush_sends}
use bcnp.Tests.Packets.{alert, alert_payload, payload_of-alert}
use bcnp.Tests.Dispatchers.{scripted}
use bcnp.Storage.Inner.{Inner, IsInner}

module _ {T : Type 0} (blank : T) (capacity : ℕ) where
  -- A list stands for its first elements, as many as there is room for.
  abbrev list_inner : Inner T
  list_inner = record {
    V = List T;
    capacity = capacity;
    fresh = [];
    size = λ v. length (take capacity v);
    empty = λ v. length (take capacity v) == 0;
    is_full = λ v. leb capacity (length (take capacity v));
    unchecked = λ v i. get_or (take capacity v) i blank;
    assign = λ v i x. set (take capacity v) i x;
    try_push_back = λ v x.
        if ltb (length (take capacity v)) capacity
        then some (take capacity v ++ (x ∷ []))
        else none;
    pop_back = λ v. take (length (take capacity v) - 1) (take capacity v);
    clear = λ v. [];
  }

  none_taken : ◌≡◌ {A = List T} (take capacity []) []
  none_taken = take-all capacity [] (omega arith)

  abbrev list_law : IsInner list_inner blank
  list_law = record {
    items = λ v. take capacity v;
    fresh_items = none_taken;
    bounded = λ v. omega (arith, length-take capacity v);
    size_is = λ v. refl;
    empty_is = λ v. refl;
    is_full_is = λ v. refl;
    unchecked_is = λ v i h. refl;
    assign_is = λ v i x h.
        take-all capacity (set (take capacity v) i x)
          (omega (arith, length-set (take capacity v) i x, length-take capacity v));
    try_push_back_fits = λ v x h. (
      take capacity v ++ (x ∷ []),
      rw (lt→ltb (length (take capacity v)) capacity h) refl,
      take-all capacity (take capacity v ++ (x ∷ []))
          (omega (arith, length-append (take capacity v) (x ∷ []))),
    );
    try_push_back_full = λ v x h. rw (le→ltb (length (take capacity v)) capacity h) refl;
    pop_back_is = λ v. take-all capacity (take (length (take capacity v) - 1) (take capacity v)) (
        omega (
          arith,
          length-take (length (take capacity v) - 1) (take capacity v),
          length-take capacity v,
        ));
    clear_is = λ v. none_taken;
  }

abbrev no_alert : ProximityAlert
no_alert = record { sensor_id = 0; distance_mm = 0; triggered = 0 }

abbrev inner : Inner ProximityAlert
inner = list_inner no_alert 4

abbrev one_alert : StaticVector inner
one_alert = record { inner = alert ∷ [] }

-- The same lists as a storage.
abbrev storage : Storage ProximityAlert
storage = record {
  V = List ProximityAlert;
  fresh = [];
  size = inner.size;
  empty = inner.empty;
  get = inner.unchecked;
  put = inner.assign;
  push_back = inner.try_push_back;
  pop_back = inner.pop_back;
  clear = inner.clear;
}

abbrev storage_law : IsStorage storage no_alert 4
storage_law =
    let law = list_law no_alert 4 in
    record {
      items = law.items;
      fresh_items = law.fresh_items;
      size_is = law.size_is;
      empty_is = law.empty_is;
      get_is = law.unchecked_is;
      put_is = law.assign_is;
      push_back_fits = law.try_push_back_fits;
      push_back_full = law.try_push_back_full;
      pop_back_is = law.pop_back_is;
      clear_is = law.clear_is;
    }

abbrev accumulator : TelemetryAccumulator proximity_alert storage
accumulator =
    new_accumulator proximity_alert storage
      (record { flush_interval_ticks = 2; max_buffered_messages = 2 })

abbrev batch : List ProximityAlert
batch = alert ∷ no_alert ∷ alert ∷ []

record_batch_refines_example :
    (b : TelemetryAccumulator proximity_alert storage) × (record_batch proximity_alert storage
        accumulator batch
      ≡ some b)
    × Recorded proximity_alert storage no_alert 4 storage_law accumulator b batch
record_batch_refines_example =
    record_batch_refines proximity_alert storage no_alert 4 storage_law batch accumulator
      (record { max_pos = omega arith; max_fits = omega arith; bounded = omega arith })
      (omega arith) (omega arith)

abbrev loaded : TelemetryAccumulator proximity_alert storage
loaded = record accumulator { buffer = alert ∷ [] }

abbrev sizes : ℕ → ℕ
sizes n = 4

force_flush_sends_example :
    let v =
      view_of proximity_alert
        (packet_of proximity_alert storage no_alert 4 storage_law (alert ∷ []))
        alert_payload in
    (force_flush proximity_alert storage scripted loaded [] ≡ (
      (scripted.send_bytes (frame v.header v.payload) []).0,
      record loaded {
        tick_count = 0;
        buffer = [];
        metrics =
            counted proximity_alert storage no_alert 4 storage_law scripted 1
              (scripted.send_bytes (frame v.header v.payload) []).0
              loaded.metrics;
      },
      (scripted.send_bytes (frame v.header v.payload) []).1,
    ))
    × IsSendable sizes v
    × (decode_typed_packet proximity_alert v
        ≡ some (record {
          header =
              wire_header proximity_alert
                (packet_of proximity_alert storage no_alert 4 storage_law (alert ∷ []));
          messages = alert ∷ [];
        }))
force_flush_sends_example =
    force_flush_sends proximity_alert storage no_alert 4 storage_law scripted loaded []
      alert_payload sizes
      (record {
        codec = proximity_alert-IsCodec;
        version = (refl, refl);
        flags_byte = omega arith;
        in_range = omega arith;
        encodes = payload_of-alert;
        few = omega arith;
      })
      (omega arith) refl
