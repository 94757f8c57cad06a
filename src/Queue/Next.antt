-- ===== src/Queue/Next.antt =====
-- `PromoteNext` against its specification.
use bcnp.Base.{
  ℕ, zero, suc, ◌<◌, ◌≡◌, refl, sym, ap, ◌∙◌, arith, max, true, false, none, List, [], ◌∷◌, length,
  ◌==◌, if◌then◌else◌, Bool-cases, inl, inr, ◌⊎◌,
}
use bcnp.Queue.{milliseconds, Time, Timed, MessageQueue, pop_unlocked}
use bcnp.Queue.Update.{lag, skip_front, activate_front, promote_loop, seed_cursor, promote_next}
use bcnp.Queue.Ring.{IsValid, pending, length-pending}
use bcnp.Queue.Schedule.{promote, resume}
use bcnp.Queue.Promote.{Kept, Kept-trans, Promoted, pending-nil, promote_loop_lem}

module _ {t : Timed} where
  -- Before the first promotion the cursor is `time_point::min()`.
  abbrev pub Seeded : MessageQueue t → Type 0
  Seeded q = (q.has_virtual_cursor ≡ true) ⊎ (q.virtual_cursor ≡ 0)

  seed_cursor_lem :
      (q : MessageQueue t) (now : Time)
      → IsValid q
      → Seeded q
      → IsValid (seed_cursor q now)
        × Kept q (seed_cursor q now)
        × (pending (seed_cursor q now) ≡ pending q)
        × ((seed_cursor q now).active ≡ q.active)
        × ((seed_cursor q now).count ≡ q.count)
        × ((seed_cursor q now).metrics.messages_skipped ≡ q.metrics.messages_skipped)
        × ((seed_cursor q now).virtual_cursor
            ≡ (if q.virtual_cursor == 0 then now else q.virtual_cursor))
        × ((seed_cursor q now).has_virtual_cursor ≡ true)
  seed_cursor_lem q now v s = ground arith

  promote_next_empty :
      (q : MessageQueue t) (now : Time)
      → (seed_cursor q now).count ≡ 0
      → promote_next q now
        ≡ record (seed_cursor q now) { virtual_cursor = max (seed_cursor q now).virtual_cursor now }
  unfolding promote_next
  promote_next_empty q now e = rw e

  promote_next_some :
      (q : MessageQueue t) (now : Time)
      → 0 < (seed_cursor q now).count
      → promote_next q now ≡ promote_loop (seed_cursor q now).count (seed_cursor q now) now
  unfolding promote_next
  promote_next_some q now h = rw (not_zero (seed_cursor q now).count h)
    where
      not_zero : (n : ℕ) → 0 < n → (n == 0) ≡ false
      not_zero n h = ground arith

  clock-IsValid :
      (q : MessageQueue t) (now : Time)
      → IsValid q
      → IsValid (record q { virtual_cursor = max q.virtual_cursor now })
  clock-IsValid q now v = ground arith

  resume_some :
      (q : MessageQueue t) (now : Time) (l : List t.Msg)
      → 0 < length l
      → resume t (lag q) now q.virtual_cursor l q.metrics.messages_skipped
        ≡ promote t
            (lag q)
            now
            (if q.virtual_cursor == 0 then now else q.virtual_cursor)
            l
            q.metrics.messages_skipped
  unfolding resume
  resume_some q now [] h = absurd (omega arith)
  resume_some q now (m ∷ l) h = refl

  resume_empty :
      (q : MessageQueue t) (now : Time)
      → resume t (lag q) now q.virtual_cursor [] q.metrics.messages_skipped ≡ record {
        active = none;
        cursor = max (if q.virtual_cursor == 0 then now else q.virtual_cursor) now;
        waiting = [];
        skipped = q.metrics.messages_skipped;
      }
  unfolding resume
  resume_empty q now = refl

  -- `PromoteNext` on an idle queue takes the next message as the specification says.
  pub promote_next_lem :
      (q : MessageQueue t) (now : Time)
      → IsValid q
      → q.active ≡ none
      → Seeded q
      → Promoted q
          (promote_next q now)
          (resume t (lag q) now q.virtual_cursor (pending q) q.metrics.messages_skipped)
  promote_next_lem q now v idle s =
      let f = seed_cursor_lem q now v s in
      elim (Bool-cases (q.count == 0)) [
        | inl empty ↦
            let nothing = pending-nil q (ground arith) in
            rw (promote_next_empty q now (f.4 ∙ ground arith)) (record {
              valid = clock-IsValid (seed_cursor q now) now f.0;
              kept = record {
                config = f.1.config;
                received = f.1.received;
                overflows = f.1.overflows;
                last_rx = f.1.last_rx;
              };
              same =
                  (λ i. record {
                    active = (f.3 ∙ idle) i;
                    cursor = max (f.6 i) now;
                    waiting = (f.2 ∙ nothing) i;
                    skipped = f.5 i;
                  })
                  ∙ sym (resume_empty q now)
                  ∙ ap (λ l. resume t (lag q) now q.virtual_cursor l q.metrics.messages_skipped)
                      (sym nothing);
            })
        | inr some_left ↦
            let p =
              promote_loop_lem (seed_cursor q now).count (seed_cursor q now) now f.0 (f.3 ∙ idle)
                refl in
            rw (promote_next_some q now (ground arith)) (record {
              valid = p.valid;
              kept = Kept-trans f.1 p.kept;
              same =
                  p.same
                  ∙ (λ i.
                      promote t (milliseconds (f.1.config i).max_command_lag) now (f.6 i) (f.2 i)
                        (f.5 i))
                  ∙ sym (resume_some q now (pending q) (ground (arith, length-pending q)));
            })
      ]

  promote_loop_seeded :
      (n : ℕ) (q : MessageQueue t) (now : Time)
      → (promote_loop n q now).has_virtual_cursor ≡ q.has_virtual_cursor
  unfolding promote_loop skip_front activate_front pop_unlocked
  promote_loop_seeded zero q now = refl
  promote_loop_seeded (suc n) q now = ground (arith, promote_loop_seeded n (skip_front q) now)

  pub promote_next-Seeded : (q : MessageQueue t) (now : Time) → Seeded (promote_next q now)
  unfolding promote_next
  promote_next-Seeded q now =
      inl (ground (arith, promote_loop_seeded (seed_cursor q now).count (seed_cursor q now) now))
