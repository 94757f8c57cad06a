-- ===== src/Telemetry/Recording.antt =====
-- The accumulator keeps the last messages, as many as the configuration allows.
use bcnp.Base.{
  ℕ, ◌+◌, ◌-◌, ◌%◌, ◌^◌, ◌≤◌, ◌<◌, ◌≡◌, refl, sym, ap, ◌∙◌, arith, true, false, Bool-cases, inl,
  inr, none, some, ◌>>=◌, List, [], ◌∷◌, ◌++◌, append_assoc, append-nil, length, length-append,
  length-drop, drop, drop-drop, drop-append_left, leb,
}
use bcnp.Base.Words.{u64}
use bcnp.Message.{MessageType}
use bcnp.Storage.{Storage, IsStorage}
use bcnp.Telemetry.{TelemetryAccumulator, make_room, record_message, record_batch}
use bcnp.Telemetry.Dropping.{drop_oldest_lem}

module _ (t : MessageType) (s : Storage t.Msg) (blank : t.Msg) (capacity : ℕ)
    (law : IsStorage s blank capacity) where
  -- No more messages than allowed, and no more allowed than there is room for.
  pub record IsBounded (a : TelemetryAccumulator t s) : Type 0 where
    pub max_pos : 0 < a.config.max_buffered_messages
    pub max_fits : a.config.max_buffered_messages ≤ capacity
    pub bounded : length (law.items a.buffer) ≤ a.config.max_buffered_messages

  -- The last messages, at most `max`.
  abbrev pub last_of : ℕ → List t.Msg → List t.Msg
  last_of max xs = drop (length xs - max) xs

  -- What recording does.
  pub record Recorded (a b : TelemetryAccumulator t s) (msgs : List t.Msg) : Type 0 where
    pub bounded : IsBounded b
    pub kept :
        law.items b.buffer ≡ last_of a.config.max_buffered_messages (law.items a.buffer ++ msgs)
    pub count : b.metrics.messages_recorded ≡ (a.metrics.messages_recorded + length msgs) % 2 ^ 64
    pub overflows :
        b.metrics.buffer_overflows
        ≡ (a.metrics.buffer_overflows
            + (length (law.items a.buffer) + length msgs - a.config.max_buffered_messages))
          % 2 ^ 64
    pub config : b.config ≡ a.config
    pub ticks : b.tick_count ≡ a.tick_count

  one_over : (n max : ℕ) → leb max n ≡ true → n ≤ max → 1 ≡ n + 1 - max
  one_over n max full h = ground arith

  room_left : (n max : ℕ) → leb max n ≡ false → 0 ≡ n + 1 - max
  room_left n max free = ground arith

  make_room_lem :
      (a : TelemetryAccumulator t s)
      → IsBounded a
      → a.metrics.buffer_overflows < 2 ^ 64
      → (law.items (make_room t s a).buffer
          ≡ drop
              (length (law.items a.buffer) + 1 - a.config.max_buffered_messages)
              (law.items a.buffer))
        × ((make_room t s a).metrics.buffer_overflows
            ≡ (a.metrics.buffer_overflows
                + (length (law.items a.buffer) + 1 - a.config.max_buffered_messages))
              % 2 ^ 64)
        × ((make_room t s a).metrics.messages_recorded ≡ a.metrics.messages_recorded)
        × ((make_room t s a).config ≡ a.config)
        × ((make_room t s a).tick_count ≡ a.tick_count)
  unfolding make_room
  make_room_lem a b small =
      elim (Bool-cases (leb a.config.max_buffered_messages (s.size a.buffer))) [
        | inl full ↦
            let one : 1 ≡ length (law.items a.buffer) + 1 - a.config.max_buffered_messages =
              one_over (length (law.items a.buffer)) a.config.max_buffered_messages
                (ap (leb a.config.max_buffered_messages) (sym (law.size_is a.buffer)) ∙ full)
                b.bounded in
            rw full (
              drop_oldest_lem t s blank capacity law a.buffer
                  ∙ ap (λ k. drop k (law.items a.buffer)) one,
              ap (λ k. (a.metrics.buffer_overflows + k) % 2 ^ 64) one,
              refl,
              refl,
              refl,
            )
        | inr free ↦
            let none_over : 0 ≡ length (law.items a.buffer) + 1 - a.config.max_buffered_messages =
              room_left (length (law.items a.buffer)) a.config.max_buffered_messages
                (ap (leb a.config.max_buffered_messages) (sym (law.size_is a.buffer)) ∙ free) in
            rw free (
              ap (λ k. drop k (law.items a.buffer)) none_over,
              omega (arith, none_over),
              refl,
              refl,
              refl,
            )
      ]

  -- A message is recorded, and the oldest one gives way to it where there are as many as allowed.
  pub record_message_refines :
      (a : TelemetryAccumulator t s) (msg : t.Msg)
      → IsBounded a
      → a.metrics.buffer_overflows < 2 ^ 64
      → (b : TelemetryAccumulator t s) × (record_message t s a msg ≡ some (true, b))
        × Recorded a b (msg ∷ [])
  unfolding record_message
  record_message_refines a msg b small =
      let (kept, overflows, recorded, config, ticks) = make_room_lem a b small in
      let room = make_room t s a in
      let xs = law.items a.buffer in
      let max = a.config.max_buffered_messages in
      let len : length (law.items room.buffer) ≡ length xs - (length xs + 1 - max) =
        ap length kept ∙ length-drop (length xs + 1 - max) xs in
      let (w, pushed, is) =
        law.push_back_fits room.buffer msg (omega (arith, len, b.bounded, b.max_fits, b.max_pos)) in
      let max_is : room.config.max_buffered_messages ≡ max =
        ap (λ c. c.max_buffered_messages) config in
      let whole : law.items w ≡ last_of max (xs ++ (msg ∷ [])) =
        is
        ∙ ap (λ l. l ++ (msg ∷ [])) kept
        ∙ sym (
            drop-append_left (length xs + 1 - max) xs (msg ∷ [])
              (omega (arith, b.bounded, b.max_pos)))
        ∙ ap (λ k. drop (k - max) (xs ++ (msg ∷ []))) (sym (length-append xs (msg ∷ []))) in
      (
        record room {
          buffer = w;
          metrics = record room.metrics {
            messages_recorded = u64 (room.metrics.messages_recorded + 1);
          };
        },
        ap
            (λ r. elim r [
              | none ↦ none
              | some buffer ↦ some (
                true,
                record room {
                  buffer = buffer;
                  metrics = record room.metrics {
                    messages_recorded = u64 (room.metrics.messages_recorded + 1);
                  };
                },
              )
            ])
            pushed,
        record {
          bounded = record {
            max_pos = omega (arith, b.max_pos, max_is);
            max_fits = omega (arith, b.max_fits, max_is);
            bounded = omega (
              arith,
              b.bounded,
              b.max_pos,
              max_is,
              ap length is,
              length-append (law.items room.buffer) (msg ∷ []),
              len,
            );
          };
          kept = whole;
          count = ap (λ n. (n + 1) % 2 ^ 64) recorded;
          overflows = overflows;
          config = config;
          ticks = ticks;
        },
      )

  -- The window over the whole is the window over the last part behind a window.
  last_of-append :
      (max : ℕ) (xs ys : List t.Msg)
      → 0 < max
      → last_of max (last_of max xs ++ ys) ≡ last_of max (xs ++ ys)
  last_of-append max xs ys pos =
      let k = length xs - max in
      let front : last_of max xs ++ ys ≡ drop k (xs ++ ys) =
        sym (drop-append_left k xs ys (omega arith)) in
      let count : k + (length (drop k (xs ++ ys)) - max) ≡ length (xs ++ ys) - max =
        omega (arith, length-drop k (xs ++ ys), length-append xs ys) in
      ap (last_of max) front
      ∙ drop-drop (length (drop k (xs ++ ys)) - max) k (xs ++ ys)
      ∙ ap (λ j. drop j (xs ++ ys)) count

  -- Where the configuration allows one message at least and no more than the storage holds, no more than
  -- that wait, and the counters are in range, a batch is recorded: of the messages that waited and those of the batch the last ones are kept, as
  -- many as the configuration allows, and each of the others counts as an overflow.
  pub record_batch_refines :
      (msgs : List t.Msg) (a : TelemetryAccumulator t s)
      → IsBounded a
      → a.metrics.buffer_overflows < 2 ^ 64
      → a.metrics.messages_recorded < 2 ^ 64
      → (b : TelemetryAccumulator t s) × (record_batch t s a msgs ≡ some b) × Recorded a b msgs
  unfolding record_batch
  record_batch_refines [] a b small counted = (
    a,
    refl,
    record {
      bounded = b;
      kept =
          sym (append-nil (law.items a.buffer))
          ∙ ap (λ k. drop k (law.items a.buffer ++ []))
              (nothing_over (length (law.items a.buffer ++ [])) a.config.max_buffered_messages
                (omega (arith, b.bounded, length-append (law.items a.buffer) [])));
      count = omega (arith, counted);
      overflows = omega (arith, small, b.bounded);
      config = refl;
      ticks = refl;
    },
  )
    where
      nothing_over : (n max : ℕ) → n ≤ max → 0 ≡ n - max
      nothing_over n max h = omega arith
  record_batch_refines (msg ∷ msgs) a b small counted =
      let (c, e, r) = record_message_refines a msg b small in
      let (d, f, q) =
        record_batch_refines msgs c r.bounded (omega (arith, r.overflows))
          (omega (arith, r.count)) in
      let xs = law.items a.buffer in
      let max = a.config.max_buffered_messages in
      let max_is : c.config.max_buffered_messages ≡ max =
        ap (λ k. k.max_buffered_messages) r.config in
      let len : length (law.items c.buffer) ≡ length xs + 1 - (length xs + 1 - max) =
        ap length r.kept
        ∙ length-drop (length (xs ++ (msg ∷ [])) - max) (xs ++ (msg ∷ []))
        ∙ ap (λ n. n - (n - max)) (length-append xs (msg ∷ [])) in
      (
        d,
        ap (λ k. k >>= λ p. record_batch t s p.1 msgs) e ∙ f,
        record {
          bounded = q.bounded;
          kept =
              q.kept
              ∙ ap (λ k. last_of k (law.items c.buffer ++ msgs)) max_is
              ∙ ap (λ l. last_of max (l ++ msgs)) r.kept
              ∙ last_of-append max (xs ++ (msg ∷ [])) msgs b.max_pos
              ∙ ap (last_of max) (append_assoc xs (msg ∷ []) msgs);
          count = omega (arith, q.count, r.count);
          overflows = omega (arith, q.overflows, r.overflows, len, max_is, b.bounded, b.max_pos);
          config = q.config ∙ r.config;
          ticks = q.ticks ∙ r.ticks;
        },
      )
