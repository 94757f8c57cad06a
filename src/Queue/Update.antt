-- ===== src/Queue/Update.antt =====
-- `Update` and `PromoteNext` of message_queue.h, with their two loops.
use bcnp.Base.{
  ℕ, zero, suc, ◌+◌, ◌-◌, max, true, false, ◌||◌, not, Option, none, some, ltb, leb, ◌==◌,
  if◌then◌else◌,
}
use bcnp.Base.Words.{u64}
use bcnp.Queue.{
  Time, milliseconds, min_time, Timed, ActiveSlot, MessageQueue, duration, clear, pop_unlocked,
  front_unlocked, is_connected,
}

module _ {t : Timed} where
  abbrev pub lag : MessageQueue t → ℕ
  lag q = milliseconds q.config.max_command_lag

  -- `++m_metrics.messagesSkipped`
  abbrev pub count_skip : MessageQueue t → MessageQueue t
  count_skip q = record q {
    metrics = record q.metrics { messages_skipped = u64 (q.metrics.messages_skipped + 1) };
  }

  -- The front message is skipped: it would have ended before the lag floor.
  unfoldable pub skip_front : MessageQueue t → MessageQueue t
  unfolding pop_unlocked
  skip_front q =
      let end = q.virtual_cursor + duration t (front_unlocked q) in
      count_skip (record (pop_unlocked q) { virtual_cursor = end })

  -- The front message becomes the active one.
  unfoldable pub activate_front : MessageQueue t → Time → MessageQueue t
  unfolding pop_unlocked
  activate_front q now =
      let next = front_unlocked q in
      let start = if ltb (q.virtual_cursor + lag q) now then now - lag q else q.virtual_cursor in
      record (pop_unlocked q) {
        active = some (record { message = next; start = start });
        virtual_cursor = start + duration t next;
      }

  -- `while (m_count > 0)`, on as many rounds as there are messages.
  unfoldable pub promote_loop : ℕ → MessageQueue t → Time → MessageQueue t
  promote_loop zero q now = q
  promote_loop (suc rounds) q now =
      let rest = promote_loop rounds (skip_front q) now in
      if q.count == 0
      then q
      else if leb (q.virtual_cursor + duration t (front_unlocked q) + lag q) now
      then rest
      else activate_front q now

  abbrev pub seed_cursor : MessageQueue t → Time → MessageQueue t
  seed_cursor q now =
      if not q.has_virtual_cursor || q.virtual_cursor == min_time
      then record q { virtual_cursor = now; has_virtual_cursor = true }
      else q

  unfoldable pub promote_next : MessageQueue t → Time → MessageQueue t
  promote_next q now =
      let q' = seed_cursor q now in
      if q'.count == 0
      then record q' { virtual_cursor = max q'.virtual_cursor now }
      else promote_loop q'.count q' now

  -- The active message is over: the cursor goes to its end.
  unfoldable pub finish : MessageQueue t → ActiveSlot t → MessageQueue t
  finish q slot = record q {
    active = none;
    virtual_cursor = slot.start + duration t slot.message;
    has_virtual_cursor = true;
  }

  -- The part of a round that promotes the next message, and goes on if there is one.
  abbrev pub after_promotion : MessageQueue t → Option (MessageQueue t) → Option (MessageQueue t)
  after_promotion q next = elim q.active [ none ↦ some q | some slot ↦ next ]

  -- `while (true)`. `none` means that the rounds ran out.
  unfoldable pub update_loop : ℕ → MessageQueue t → Time → Option (MessageQueue t)
  update_loop zero q now = none
  update_loop (suc rounds) q now = elim q.active [
    | none ↦
        let q' = promote_next q now in
        let next = update_loop rounds q' now in after_promotion q' next
    | some slot ↦
        let q' = promote_next (finish q slot) now in
        let next = update_loop rounds q' now in
        if ltb now (slot.start + duration t slot.message) then some q else after_promotion q' next
  ]

  -- A round that goes on has taken a message of the queue, so `count + 2` rounds are enough.
  unfoldable pub update : MessageQueue t → Time → Option (MessageQueue t)
  update q now =
      if not (is_connected q now)
      then some (record (clear q) { has_virtual_cursor = false })
      else update_loop (q.count + 2) q now
