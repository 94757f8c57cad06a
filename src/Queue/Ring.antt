-- ===== src/Queue/Ring.antt =====
-- The ring of the message queue as the list of the messages that wait in it.
use bcnp.Base.{
  none, take, replicate, length-append, length-take, ◌==◌, ℕ, zero, suc, ◌+◌, ◌-◌, ◌%◌, ◌≤◌, ◌<◌,
  ◌≡◌, ap, ap₂, ◌∙◌, arith, List, [], ◌∷◌, ◌++◌, length, length-set, length-replicate, ltb,
  if◌then◌else◌, get_or, set, ◌^◌,
}
use bcnp.Base.Window.{window, length-window, window_mod, window-set}
use bcnp.Queue.{
  set_config, clamp_config, Timed, MessageQueue, MessageQueueConfig, new_queue, clear,
  push_unlocked, push, pop_unlocked, front_unlocked, clamp_config,
}
use native.Mathlib.Nat.{mod-eq_of_lt, mod-add-mod, mod-lt}

-- The messages that wait, oldest first.
abbrev pub pending : {t : Timed} → MessageQueue t → List t.Msg
pending {t} q = window (length q.storage) t.blank q.storage q.head q.count

-- The storage has the configured capacity, the indices lie inside it, and the tail is `count`
-- places behind the head.
pub record IsValid {t : Timed} (q : MessageQueue t) : Type 0 where
  pub sized : length q.storage ≡ q.config.capacity
  pub capacity_pos : 0 < q.config.capacity
  pub lag_pos : 0 < q.config.max_command_lag
  pub head_in : q.head < length q.storage
  pub tail_behind : q.tail ≡ (q.head + q.count) % length q.storage
  pub count_le : q.count ≤ length q.storage

module _ {t : Timed} where
  pub length-pending : (q : MessageQueue t) → length (pending q) ≡ q.count
  length-pending q = length-window (length q.storage) t.blank q.storage q.head q.count

  -- The constructor makes a valid queue in which nothing waits, whatever the configuration.
  pub new_queue-IsValid : (c : MessageQueueConfig) → IsValid (new_queue {t = t} c)
  unfolding new_queue
  new_queue-IsValid c = ground (arith, length-replicate (clamp_config c).capacity t.blank)

  pub clear-IsValid : (q : MessageQueue t) → IsValid q → IsValid (clear q)
  unfolding clear
  clear-IsValid q v = ground (arith, mod-eq_of_lt {n = 0} {m = length q.storage})

  pub push_unlocked-IsValid :
      (q : MessageQueue t) (m : t.Msg) → IsValid q → IsValid (push_unlocked q m).0
  unfolding push_unlocked
  push_unlocked-IsValid q m v =
      ground
        (arith, length-set q.storage q.tail m, mod-add-mod (q.head + q.count) (length q.storage) 1)

  pub pop_unlocked-IsValid : (q : MessageQueue t) → IsValid q → IsValid (pop_unlocked q)
  unfolding pop_unlocked
  pop_unlocked-IsValid q v = ground (
    arith,
    mod-lt (q.head + 1) {m = length q.storage},
    mod-add-mod (q.head + 1) (length q.storage) (q.count - 1),
  )

  pending_write :
      (q : MessageQueue t) (m : t.Msg)
      → IsValid q
      → q.count < length q.storage
      → window
          (length (set q.storage q.tail m))
          t.blank
          (set q.storage q.tail m)
          q.head
          (q.count + 1)
        ≡ pending q ++ (m ∷ [])
  pending_write q m v room =
      ap (λ k. window k t.blank (set q.storage q.tail m) q.head (q.count + 1))
        (length-set q.storage q.tail m)
      ∙ ap (λ k. window (length q.storage) t.blank (set q.storage k m) q.head (q.count + 1))
          v.tail_behind
      ∙ window-set (length q.storage) t.blank q.storage q.head q.count m room (omega arith)

  -- A push adds the message at the back and reports it, if there is room; else the queue is as
  -- before. Either way one counter goes up, and the active message stays.
  pub push_refines :
      (q : MessageQueue t) (m : t.Msg)
      → IsValid q
      → let (q', done) = push q m in
        (done ≡ ltb (length (pending q)) q.config.capacity)
        × (pending q' ≡ (if done then pending q ++ (m ∷ []) else pending q))
        × (q'.active ≡ q.active)
        × (q'.metrics.messages_received ≡ (
            if done
            then (q.metrics.messages_received + 1) % 2 ^ 64
            else q.metrics.messages_received))
        × (q'.metrics.queue_overflows ≡ (
            if done then q.metrics.queue_overflows else (q.metrics.queue_overflows + 1) % 2 ^ 64))
        × IsValid q'
  unfolding push
  push_refines q m v = ground (
    arith,
    length-pending q,
    pending_write q m v,
    length-set q.storage q.tail m,
    mod-add-mod (q.head + q.count) (length q.storage) 1,
  )

  -- A pop takes the front message away.
  pub pop_refines :
      (q : MessageQueue t)
      → IsValid q
      → 0 < q.count
      → pending q ≡ front_unlocked q ∷ pending (pop_unlocked q)
  unfolding pop_unlocked
  pop_refines q v h = ground (
    arith,
    unrolled q.count h,
    mod-eq_of_lt {n = q.head} {m = length q.storage} v.head_in,
    window_mod (length q.storage) t.blank q.storage (q.head + 1) (q.count - 1),
  )
    where
      unrolled :
          (n : ℕ)
          → 0 < n
          → window (length q.storage) t.blank q.storage q.head n
            ≡ get_or q.storage (q.head % length q.storage) t.blank
              ∷ window (length q.storage) t.blank q.storage (q.head + 1) (n - 1)
      unrolled zero h = absurd (omega arith)
      unrolled (suc n) h =
          ap₂
            (λ a b.
              get_or q.storage (q.head % length q.storage) t.blank
              ∷ window (length q.storage) t.blank q.storage a b)
            (omega arith) (omega arith)

  -- A new configuration leaves a valid queue. It keeps what waits and what is active unless the
  -- capacity changes, and then it drops both.
  pub set_config_refines :
      (q : MessageQueue t) (c : MessageQueueConfig)
      → IsValid q
      → let q' = set_config q c in
        let same = (clamp_config c).capacity == q.config.capacity in
        IsValid q'
        × (q'.config ≡ clamp_config c)
        × (pending q' ≡ (if same then pending q else []))
        × (q'.active ≡ (if same then q.active else none))
  unfolding set_config clear
  set_config_refines q c v = ground (
    arith,
    length-append (take (clamp_config c).capacity q.storage)
        (replicate ((clamp_config c).capacity - length q.storage) t.blank),
    length-take (clamp_config c).capacity q.storage,
    length-replicate ((clamp_config c).capacity - length q.storage) t.blank,
    mod-eq_of_lt {n = 0} {m = (clamp_config c).capacity},
  )
