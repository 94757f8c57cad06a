-- ===== src/Queue.antt =====
-- `MessageQueue` of message_queue.h. Each method holds the mutex from its first line to its last,
-- so it is one step on the state; a `Transaction` is a run of such steps with nothing in between.
-- A time point is the number of nanoseconds since `time_point::min()`, which is 0; comparisons of
-- differences are written as comparisons of sums.
pub mod Update
pub mod Ring
pub mod Schedule
pub mod Promote
pub mod Next
pub mod Refine
pub mod OnTime
use bcnp.Base.{
  ℕ, zero, suc, ◌+◌, ◌-◌, ◌*◌, ◌%◌, ◌^◌, min, max, Bool, true, false, ◌&&◌, ◌||◌, not, Option, none,
  some, List, [], ◌∷◌, ◌++◌, ltb, leb, ◌==◌, ◌/=◌, if◌then◌else◌, length, get_or, set, take,
  replicate,
}
use bcnp.Base.Words.{u64}

abbrev pub Time : Type 0
Time = ℕ

-- `std::chrono::milliseconds`, in nanoseconds.
abbrev pub milliseconds : ℕ → ℕ
milliseconds n = n * 1000000

abbrev pub min_time : Time
min_time = 0

-- A lag of 0 stands for every lag that is not positive. The timeout is not negative.
pub record MessageQueueConfig : Type 0 where
  pub capacity : ℕ
  pub connection_timeout : ℕ
  pub max_command_lag : ℕ

abbrev pub default_config : MessageQueueConfig
default_config = record { capacity = 200; connection_timeout = 200; max_command_lag = 100 }

pub record MessageQueueMetrics : Type 0 where
  pub messages_received : ℕ
  pub queue_overflows : ℕ
  pub messages_skipped : ℕ

abbrev pub no_metrics : MessageQueueMetrics
no_metrics = record { messages_received = 0; queue_overflows = 0; messages_skipped = 0 }

-- What the queue needs of a message type: `durationMs` and the default constructor.
pub record Timed : Type 1 where
  pub Msg : Type 0
  pub duration_ms : Msg → ℕ
  pub blank : Msg

module _ (t : Timed) where
  pub record ActiveSlot : Type 0 where
    pub message : t.Msg
    pub start : Time

  pub record MessageQueue : Type 0 where
    pub config : MessageQueueConfig
    pub metrics : MessageQueueMetrics
    pub storage : List t.Msg
    pub head : ℕ
    pub tail : ℕ
    pub count : ℕ
    pub active : Option ActiveSlot
    pub virtual_cursor : Time
    pub has_virtual_cursor : Bool
    pub last_rx : Time

abbrev pub clamp_config : MessageQueueConfig → MessageQueueConfig
clamp_config c = record {
  capacity = if c.capacity == 0 then 200 else c.capacity;
  connection_timeout = c.connection_timeout;
  max_command_lag = if c.max_command_lag == 0 then 1 else c.max_command_lag;
}

abbrev pub duration : (t : Timed) → t.Msg → ℕ
duration t m = milliseconds (t.duration_ms m)

module _ {t : Timed} where
  unfoldable pub new_queue : MessageQueueConfig → MessageQueue t
  new_queue c = record {
    config = clamp_config c;
    metrics = no_metrics;
    storage = replicate (clamp_config c).capacity t.blank;
    head = 0;
    tail = 0;
    count = 0;
    active = none;
    virtual_cursor = min_time;
    has_virtual_cursor = false;
    last_rx = min_time;
  }

  unfoldable pub clear : MessageQueue t → MessageQueue t
  clear q = record q {
    head = 0;
    tail = 0;
    count = 0;
    active = none;
    virtual_cursor = min_time;
    has_virtual_cursor = false;
  }

  abbrev pub effective_depth : MessageQueue t → ℕ
  effective_depth q = min q.config.capacity (length q.storage)

  unfoldable pub push_unlocked : MessageQueue t → t.Msg → MessageQueue t × Bool
  push_unlocked q m = if leb (effective_depth q) q.count then (q, false) else (
    record q {
      storage = set q.storage q.tail m;
      tail = (q.tail + 1) % length q.storage;
      count = q.count + 1;
    },
    true,
  )

  -- `Push`, and `Transaction::Push`, which has the same body.
  unfoldable pub push : MessageQueue t → t.Msg → MessageQueue t × Bool
  unfolding push_unlocked
  push q m =
      let (q', done) = push_unlocked q m in
      if done
      then (
        record q' {
          metrics = record q'.metrics {
            messages_received = u64 (q'.metrics.messages_received + 1);
          };
        },
        true,
      )
      else (
        record q' {
          metrics = record q'.metrics { queue_overflows = u64 (q'.metrics.queue_overflows + 1) };
        },
        false,
      )

  unfoldable pub pop_unlocked : MessageQueue t → MessageQueue t
  pop_unlocked q =
      if q.count == 0
      then q
      else record q { head = (q.head + 1) % length q.storage; count = q.count - 1 }

  abbrev pub front_unlocked : MessageQueue t → t.Msg
  front_unlocked q = get_or q.storage q.head t.blank

  unfoldable pub size : MessageQueue t → ℕ
  size q = q.count

  unfoldable pub notify_received : MessageQueue t → Time → MessageQueue t
  notify_received q now = record q { last_rx = now }

  unfoldable pub is_connected : MessageQueue t → Time → Bool
  is_connected q now =
      if q.last_rx == min_time
      then false
      else leb now (q.last_rx + milliseconds q.config.connection_timeout)

  unfoldable pub active_message : MessageQueue t → Option t.Msg
  active_message q = elim q.active [ none ↦ none | some slot ↦ some slot.message ]

  unfoldable pub reset_metrics : MessageQueue t → MessageQueue t
  reset_metrics q = record q { metrics = no_metrics }

  -- `std::vector::resize`
  unfoldable pub set_config : MessageQueue t → MessageQueueConfig → MessageQueue t
  unfolding clear
  set_config q c =
      let config = clamp_config c in
      let q' = record q { config = config } in
      if length q.storage /= config.capacity
      then record (clear q') {
        storage =
            take config.capacity q.storage
            ++ replicate (config.capacity - length q.storage) t.blank;
      }
      else q'
