-- ===== src/Queue/Schedule.antt =====
-- What an update promises, over the plain list of the messages that wait. Messages run one behind
-- the other from a cursor; one that would have ended more than the lag ago is skipped, and one that
-- would have begun more than the lag ago begins at the lag floor.
use bcnp.Base.{
  ℕ, zero, suc, ◌+◌, ◌-◌, ◌%◌, ◌^◌, ◌<◌, ◌≡◌, refl, ap, arith, max, true, false, Option, none, some,
  List, [], ◌∷◌, length, ltb, leb, ◌==◌, if◌then◌else◌,
}
use bcnp.Queue.{Time, Timed, ActiveSlot, duration}

pub record Schedule (t : Timed) : Type 0 where
  pub active : Option (ActiveSlot t)
  pub cursor : Time
  pub waiting : List t.Msg
  pub skipped : ℕ

abbrev pub end_of : (t : Timed) → ActiveSlot t → Time
end_of t slot = slot.start + duration t slot.message

-- Where the next message begins: at the cursor, but not before the lag floor.
abbrev pub begin_at : ℕ → Time → Time → Time
begin_at lag now cursor = if ltb (cursor + lag) now then now - lag else cursor

module _ (t : Timed) (lag : ℕ) (now : Time) where
  -- Skip the stale messages, and begin the first that is not.
  unfoldable pub promote : Time → List t.Msg → ℕ → Schedule t
  promote cursor [] skipped = record {
    active = none;
    cursor = cursor;
    waiting = [];
    skipped = skipped;
  }
  promote cursor (m ∷ ms) skipped =
      let later = promote (cursor + duration t m) ms ((skipped + 1) % 2 ^ 64) in
      let start = begin_at lag now cursor in
      if leb (cursor + duration t m + lag) now then later else record {
        active = some (record { message = m; start = start });
        cursor = start + duration t m;
        waiting = ms;
        skipped = skipped;
      }

  -- An idle queue takes up the current time, and a cursor in the past is moved to it.
  unfoldable pub resume : Time → List t.Msg → ℕ → Schedule t
  resume cursor [] skipped = record {
    active = none;
    cursor = max (if cursor == 0 then now else cursor) now;
    waiting = [];
    skipped = skipped;
  }
  resume cursor (m ∷ ms) skipped = promote (if cursor == 0 then now else cursor) (m ∷ ms) skipped

  -- Messages that are already over make place for the next, until one is not, or none is left.
  unfoldable pub run : ℕ → Schedule t → Schedule t
  run zero s = s
  run (suc rounds) s = elim s.active [
    | none ↦ s
    | some slot ↦
        let next = run rounds (resume (end_of t slot) s.waiting s.skipped) in
        if ltb now (end_of t slot) then s else next
  ]

  pub waiting_shrinks :
      (cursor : Time) (ms : List t.Msg) (skipped : ℕ) (slot : ActiveSlot t)
      → (promote cursor ms skipped).active ≡ some slot
      → length (promote cursor ms skipped).waiting < length ms
  unfolding promote
  waiting_shrinks cursor [] skipped slot e = cc
  waiting_shrinks cursor (m ∷ ms) skipped slot e =
      ground (arith, waiting_shrinks (cursor + duration t m) ms ((skipped + 1) % 2 ^ 64) slot)

  pub promote_stale :
      (cursor : Time) (m : t.Msg) (ms : List t.Msg) (skipped : ℕ)
      → leb (cursor + duration t m + lag) now ≡ true
      → promote cursor (m ∷ ms) skipped
        ≡ promote (cursor + duration t m) ms ((skipped + 1) % 2 ^ 64)
  unfolding promote
  promote_stale cursor m ms skipped e = ground arith

  pub promote_fresh :
      (cursor : Time) (m : t.Msg) (ms : List t.Msg) (skipped : ℕ)
      → leb (cursor + duration t m + lag) now ≡ false
      → promote cursor (m ∷ ms) skipped ≡ record {
        active = some (record { message = m; start = begin_at lag now cursor });
        cursor = begin_at lag now cursor + duration t m;
        waiting = ms;
        skipped = skipped;
      }
  unfolding promote
  promote_fresh cursor m ms skipped e = ground arith

  pub resume_shrinks :
      (cursor : Time) (ms : List t.Msg) (skipped : ℕ) (slot : ActiveSlot t)
      → (resume cursor ms skipped).active ≡ some slot
      → length (resume cursor ms skipped).waiting < length ms
  unfolding resume
  resume_shrinks cursor [] skipped slot e = cc
  resume_shrinks cursor (m ∷ ms) skipped slot e =
      waiting_shrinks (if cursor == 0 then now else cursor) (m ∷ ms) skipped slot e

  pub run_idle : (n : ℕ) (s : Schedule t) → s.active ≡ none → run n s ≡ s
  unfolding run
  run_idle zero s e = refl
  run_idle (suc n) s e = rw e

  pub run_busy :
      (n : ℕ) (s : Schedule t) (slot : ActiveSlot t)
      → s.active ≡ some slot
      → ltb now (end_of t slot) ≡ true
      → run n s ≡ s
  unfolding run
  run_busy zero s slot e busy = refl
  run_busy (suc n) s slot e busy = rw e (rw busy)

  pub run_over :
      (n : ℕ) (s : Schedule t) (slot : ActiveSlot t)
      → s.active ≡ some slot
      → ltb now (end_of t slot) ≡ false
      → run (suc n) s ≡ run n (resume (end_of t slot) s.waiting s.skipped)
  unfolding run
  run_over n s slot e over = rw e (rw over)

  -- The schedule of an update, from what the queue holds before it.
  abbrev pub updated : Schedule t → Schedule t
  updated s =
      let rounds = length s.waiting + 1 in
      elim s.active [
        | none ↦ run rounds (resume s.cursor s.waiting s.skipped)
        | some slot ↦ run (suc rounds) s
      ]

  pub updated-some :
      (s : Schedule t) (slot : ActiveSlot t) (n : ℕ)
      → s.active ≡ some slot
      → length s.waiting ≡ n
      → updated s ≡ run (suc (n + 1)) s
  updated-some s slot n e k = rw e (ap (λ n. run (suc (n + 1)) (record s { active = some slot })) k)

  pub updated-none :
      (s : Schedule t) (n : ℕ)
      → s.active ≡ none
      → length s.waiting ≡ n
      → updated s ≡ run (n + 1) (resume s.cursor s.waiting s.skipped)
  updated-none s n e k = rw e (ap (λ n. run (n + 1) (resume s.cursor s.waiting s.skipped)) k)
