-- ===== src/Tests/Queues.antt =====
-- A queue of timed commands: two are pushed, and the first one runs.
use bcnp.Base.{
  ℕ, ◌+◌, ◌%◌, ◌^◌, ◌≡◌, ◌<◌, refl, arith, true, false, some, [], ◌∷◌, ◌++◌, length, ltb,
  if◌then◌else◌, inr,
}
use bcnp.Queue.{
  MessageQueueConfig, Timed, MessageQueue, new_queue, push, push_unlocked, notify_received,
  is_connected,
}
use bcnp.Queue.Update.{lag, update}
use bcnp.Queue.Ring.{pending, IsValid, push_refines, new_queue-IsValid}
use bcnp.Queue.Schedule.{updated}
use bcnp.Queue.Promote.{schedule, Kept}
use bcnp.Queue.Next.{Seeded}
use bcnp.Queue.Refine.{update_refines}
use bcnp.Queue.OnTime.{Settled, Suffix, update_settles}

-- A message is its own duration, in milliseconds.
abbrev durations : Timed
durations = record { Msg = ℕ; duration_ms = λ n. n; blank = 0 }

abbrev config : MessageQueueConfig
config = record { capacity = 3; connection_timeout = 200; max_command_lag = 100 }

abbrev empty_queue : MessageQueue durations
empty_queue = new_queue config

abbrev one_waits : MessageQueue durations
one_waits = (push empty_queue 50).0

abbrev two_wait : MessageQueue durations
two_wait = notify_received (push one_waits 70).0 1000

one_waits-IsValid : IsValid one_waits
one_waits-IsValid = (push_refines empty_queue 50 (new_queue-IsValid config)).5

two_wait-IsValid : IsValid two_wait
unfolding notify_received
two_wait-IsValid =
    let v = (push_refines one_waits 70 one_waits-IsValid).5 in
    record {
      sized = v.sized;
      capacity_pos = v.capacity_pos;
      lag_pos = v.lag_pos;
      head_in = v.head_in;
      tail_behind = v.tail_behind;
      count_le = v.count_le;
    }

two_wait-Seeded : Seeded two_wait
unfolding push push_unlocked new_queue notify_received
two_wait-Seeded = inr refl

two_wait_connected : is_connected two_wait 2000 ≡ true
unfolding push push_unlocked new_queue notify_received is_connected
two_wait_connected = refl

two_wait_stale : is_connected two_wait 300000000 ≡ false
unfolding push push_unlocked new_queue notify_received is_connected
two_wait_stale = refl

push_refines_example :
    let (q', done) = push one_waits 70 in
    (done ≡ ltb (length (pending one_waits)) one_waits.config.capacity)
    × (pending q' ≡ (if done then pending one_waits ++ (70 ∷ []) else pending one_waits))
    × (q'.active ≡ one_waits.active)
    × (q'.metrics.messages_received ≡ (
        if done
        then (one_waits.metrics.messages_received + 1) % 2 ^ 64
        else one_waits.metrics.messages_received))
    × (q'.metrics.queue_overflows ≡ (
        if done
        then one_waits.metrics.queue_overflows
        else (one_waits.metrics.queue_overflows + 1) % 2 ^ 64))
    × IsValid q'
push_refines_example = push_refines one_waits 70 one_waits-IsValid

one_waits_count : 0 < one_waits.count
unfolding push push_unlocked new_queue
one_waits_count = omega arith

update_refines_example :
    (q' : MessageQueue durations) × (update two_wait 2000 ≡ some q')
    × (schedule q' ≡ updated durations (lag two_wait) 2000 (schedule two_wait))
    × Kept two_wait q'
    × IsValid q'
    × Seeded q'
update_refines_example =
    update_refines two_wait 2000 two_wait-IsValid two_wait-Seeded two_wait_connected

update_settles_example :
    (q' : MessageQueue durations) × (update two_wait 2000 ≡ some q')
    × Settled durations (lag two_wait) 2000 (schedule q')
    × Suffix durations (lag two_wait) 2000 (pending two_wait) (pending q')
update_settles_example =
    update_settles two_wait 2000 two_wait-IsValid two_wait-Seeded two_wait_connected

abbrev wider : MessageQueueConfig
wider = record { capacity = 5; connection_timeout = 200; max_command_lag = 0 }
