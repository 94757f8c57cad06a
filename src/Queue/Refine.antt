-- ===== src/Queue/Refine.antt =====
-- `Update` of message_queue.h against the schedule that it promises.
use bcnp.Base.{
  ℕ, zero, suc, ◌+◌, ◌<◌, ◌≡◌, refl, sym, ap, ◌∙◌, arith, true, false, Option, none, some,
  Option-cases, [], length, ltb, Bool-cases, inl, inr,
}
use bcnp.Queue.{Time, milliseconds, Timed, ActiveSlot, MessageQueue, is_connected, clear}
use bcnp.Queue.Update.{lag, promote_next, finish, after_promotion, update_loop, update}
use bcnp.Queue.Ring.{IsValid, pending, length-pending, clear-IsValid}
use bcnp.Queue.Schedule.{
  Schedule, end_of, resume, run, resume_shrinks, run_idle, run_busy, run_over, updated,
  updated-some, updated-none,
}
use bcnp.Queue.Promote.{schedule, Kept, Kept-trans, Promoted, pending-nil}
use bcnp.Queue.Next.{Seeded, promote_next_lem, promote_next-Seeded}

module _ {t : Timed} where
  loop_busy :
      (n : ℕ) (q : MessageQueue t) (now : Time) (slot : ActiveSlot t)
      → q.active ≡ some slot
      → ltb now (end_of t slot) ≡ true
      → update_loop (suc n) q now ≡ some q
  unfolding update_loop
  loop_busy n q now slot e busy = rw e (rw busy)

  loop_over :
      (n : ℕ) (q : MessageQueue t) (now : Time) (slot : ActiveSlot t)
      → q.active ≡ some slot
      → ltb now (end_of t slot) ≡ false
      → update_loop (suc n) q now
        ≡ after_promotion
            (promote_next (finish q slot) now)
            (update_loop n (promote_next (finish q slot) now) now)
  unfolding update_loop
  loop_over n q now slot e over = rw e (rw over)

  loop_idle :
      (n : ℕ) (q : MessageQueue t) (now : Time)
      → q.active ≡ none
      → update_loop (suc n) q now
        ≡ after_promotion (promote_next q now) (update_loop n (promote_next q now) now)
  unfolding update_loop
  loop_idle n q now e = rw e

  -- What an update that begins at `q` returns.
  record Updated (q : MessageQueue t) (r : Option (MessageQueue t)) (s : Schedule t) : Type 0 where
    result : MessageQueue t
    returns : r ≡ some result
    promoted : Promoted q result s
    seeded : Seeded result

  finish_lem :
      (q : MessageQueue t) (now : Time) (slot : ActiveSlot t)
      → IsValid q
      → Promoted q
          (promote_next (finish q slot) now)
          (resume t (lag q) now (end_of t slot) (pending q) q.metrics.messages_skipped)
  unfolding finish
  finish_lem q now slot v =
      let p = promote_next_lem (finish q slot) now (ground arith) refl (inl refl) in
      record {
        valid = p.valid;
        kept = record {
          config = p.kept.config;
          received = p.kept.received;
          overflows = p.kept.overflows;
          last_rx = p.kept.last_rx;
        };
        same = p.same;
      }

  smaller :
      (q q' : MessageQueue t) (now cursor : Time) (slot : ActiveSlot t)
      → schedule q' ≡ resume t (lag q) now cursor (pending q) q.metrics.messages_skipped
      → q'.active ≡ some slot
      → q'.count < q.count
  smaller q q' now cursor slot same e = omega (
    arith,
    length-pending q,
    length-pending q',
    ap (λ s. length (s.waiting)) same,
    resume_shrinks t (lag q) now cursor (pending q) q.metrics.messages_skipped slot
        (ap (λ s. s.active) (sym same) ∙ e),
  )

  -- A round that promotes a message goes on, and any other ends the update.
  settle :
      (n : ℕ) (q q' : MessageQueue t) (now cursor : Time)
      → Promoted q q' (resume t (lag q) now cursor (pending q) q.metrics.messages_skipped)
      → Seeded q'
      → ((slot : ActiveSlot t)
          → q'.active ≡ some slot
          → q'.count < q.count
          → Updated q' (update_loop n q' now) (run t (lag q') now n (schedule q')))
      → Updated q
          (after_promotion q' (update_loop n q' now))
          (run t (lag q) now n (resume t (lag q) now cursor (pending q) q.metrics.messages_skipped))
  settle n q q' now cursor p s later = elim (Option-cases q'.active) [
    | inl idle ↦ record {
      result = q';
      returns = ends q' (update_loop n q' now) idle;
      promoted = record {
        valid = p.valid;
        kept = p.kept;
        same = p.same ∙ sym (run_idle t (lag q) now n _ (ap (λ s. s.active) (sym p.same) ∙ idle));
      };
      seeded = s;
    }
    | inr (slot, e) ↦
        let u = later slot e (smaller q q' now cursor slot p.same e) in
        record {
          result = u.result;
          returns = goes_on q' (update_loop n q' now) slot e ∙ u.returns;
          promoted = record {
            valid = u.promoted.valid;
            kept = Kept-trans p.kept u.promoted.kept;
            same =
                u.promoted.same
                ∙ (λ i. run t (milliseconds (p.kept.config i).max_command_lag) now n (p.same i));
          };
          seeded = u.seeded;
        }
  ]
    where
      ends :
          (q : MessageQueue t) (next : Option (MessageQueue t))
          → q.active ≡ none
          → after_promotion q next ≡ some q
      ends q next e = rw e

      goes_on :
          (q : MessageQueue t) (next : Option (MessageQueue t)) (slot : ActiveSlot t)
          → q.active ≡ some slot
          → after_promotion q next ≡ next
      goes_on q next slot e = rw e

  update_loop_lem :
      (n : ℕ) (q : MessageQueue t) (now : Time) (slot : ActiveSlot t)
      → q.active ≡ some slot
      → IsValid q
      → Seeded q
      → q.count < n
      → Updated q (update_loop n q now) (run t (lag q) now n (schedule q))
  update_loop_lem zero q now slot e v s enough = absurd (omega arith)
  update_loop_lem (suc n) q now slot e v s enough = elim (Bool-cases (ltb now (end_of t slot))) [
    | inl busy ↦ record {
      result = q;
      returns = loop_busy n q now slot e busy;
      promoted = record {
        valid = v;
        kept = record { config = refl; received = refl; overflows = refl; last_rx = refl };
        same = sym (run_busy t (lag q) now (suc n) (schedule q) slot e busy);
      };
      seeded = s;
    }
    | inr over ↦ rw (loop_over n q now slot e over) (
        rw (run_over t (lag q) now n (schedule q) slot e over) (
          settle n q (promote_next (finish q slot) now) now (end_of t slot)
            (finish_lem q now slot v) (promote_next-Seeded (finish q slot) now)
            (λ next e' less.
              update_loop_lem n (promote_next (finish q slot) now) now next e'
                (finish_lem q now slot v).valid (promote_next-Seeded (finish q slot) now)
                (omega arith))))
  ]

  connected_loop :
      (q : MessageQueue t) (now : Time)
      → is_connected q now ≡ true
      → update q now ≡ update_loop (suc (q.count + 1)) q now
  unfolding update
  connected_loop q now c = rw c (ap (λ n. update_loop n q now) (omega arith))

  -- An update of a connected queue always returns, and it leaves the active message, the cursor,
  -- the waiting messages and the skip count that the specification gives.
  pub update_refines :
      (q : MessageQueue t) (now : Time)
      → IsValid q
      → Seeded q
      → is_connected q now ≡ true
      → (q' : MessageQueue t) × (update q now ≡ some q')
        × (schedule q' ≡ updated t (lag q) now (schedule q))
        × Kept q q'
        × IsValid q'
        × Seeded q'
  update_refines q now v s c = elim (Option-cases q.active) [
    | inl idle ↦
        let p = promote_next_lem q now v idle s in
        let u =
          settle (q.count + 1) q (promote_next q now) now q.virtual_cursor p
            (promote_next-Seeded q now)
            (λ next e' less.
              update_loop_lem (q.count + 1) (promote_next q now) now next e' p.valid
                (promote_next-Seeded q now) (omega arith)) in
        (
          u.result,
          connected_loop q now c ∙ loop_idle (q.count + 1) q now idle ∙ u.returns,
          u.promoted.same
              ∙ sym (updated-none t (lag q) now (schedule q) q.count idle (length-pending q)),
          u.promoted.kept,
          u.promoted.valid,
          u.seeded,
        )
    | inr (slot, e) ↦
        let u = update_loop_lem (suc (q.count + 1)) q now slot e v s (omega arith) in
        (
          u.result,
          connected_loop q now c ∙ u.returns,
          u.promoted.same
              ∙ sym (updated-some t (lag q) now (schedule q) slot q.count e (length-pending q)),
          u.promoted.kept,
          u.promoted.valid,
          u.seeded,
        )
  ]

  -- An update of a queue that is not connected drops all that waits, and the active message.
  pub update_disconnected :
      (q : MessageQueue t) (now : Time)
      → IsValid q
      → is_connected q now ≡ false
      → (q' : MessageQueue t) × (update q now ≡ some q')
        × (pending q' ≡ [])
        × (q'.active ≡ none)
        × Kept q q'
        × IsValid q'
        × Seeded q'
  unfolding update clear
  update_disconnected q now v c = (
    record (clear q) { has_virtual_cursor = false },
    rw c refl,
    pending-nil (clear q) (refl),
    refl,
    (record { config = refl; received = refl; overflows = refl; last_rx = refl }),
    clear-IsValid q v,
    inr (refl),
  )
