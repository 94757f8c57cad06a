-- ===== src/Queue/Promote.antt =====
-- The loop of `PromoteNext` against its specification.
use bcnp.Base.{
  ℕ, zero, suc, ◌+◌, ◌%◌, ◌^◌, ◌<◌, ◌≡◌, refl, sym, ap, ◌∙◌, arith, true, false, none, some, [],
  ◌∷◌, leb, Bool-cases, inl, inr,
}
use bcnp.Queue.{milliseconds, Time, Timed, MessageQueue, duration, front_unlocked}
use bcnp.Queue.Update.{lag, skip_front, activate_front, promote_loop}
use bcnp.Queue.Ring.{IsValid, pending, pop_refines, pop_unlocked-IsValid}
use bcnp.Queue.Schedule.{Schedule, promote, begin_at, promote_stale, promote_fresh}

module _ {t : Timed} where
  -- What a client can see of the timing.
  abbrev pub schedule : MessageQueue t → Schedule t
  schedule q = record {
    active = q.active;
    cursor = q.virtual_cursor;
    waiting = pending q;
    skipped = q.metrics.messages_skipped;
  }

  -- What no promotion touches.
  pub record Kept (q q' : MessageQueue t) : Type 0 where
    pub config : q'.config ≡ q.config
    pub received : q'.metrics.messages_received ≡ q.metrics.messages_received
    pub overflows : q'.metrics.queue_overflows ≡ q.metrics.queue_overflows
    pub last_rx : q'.last_rx ≡ q.last_rx

  pub Kept-trans : {p q r : MessageQueue t} → Kept p q → Kept q r → Kept p r
  Kept-trans a b = record {
    config = b.config ∙ a.config;
    received = b.received ∙ a.received;
    overflows = b.overflows ∙ a.overflows;
    last_rx = b.last_rx ∙ a.last_rx;
  }

  pub skip_front_lem :
      (q : MessageQueue t)
      → IsValid q
      → 0 < q.count
      → IsValid (skip_front q)
        × (pending q ≡ front_unlocked q ∷ pending (skip_front q))
        × Kept q (skip_front q)
        × ((skip_front q).count + 1 ≡ q.count)
        × ((skip_front q).active ≡ q.active)
        × ((skip_front q).virtual_cursor ≡ q.virtual_cursor + duration t (front_unlocked q))
        × ((skip_front q).metrics.messages_skipped ≡ (q.metrics.messages_skipped + 1) % 2 ^ 64)
  unfolding skip_front
  skip_front_lem q v h = ground (arith, pop_refines q v h, pop_unlocked-IsValid q v)

  pub activate_front_lem :
      (q : MessageQueue t) (now : Time)
      → IsValid q
      → 0 < q.count
      → IsValid (activate_front q now)
        × (pending q ≡ front_unlocked q ∷ pending (activate_front q now))
        × Kept q (activate_front q now)
        × ((activate_front q now).count + 1 ≡ q.count)
        × ((activate_front q now).active
            ≡ some (record {
              message = front_unlocked q;
              start = begin_at (lag q) now q.virtual_cursor;
            }))
        × ((activate_front q now).virtual_cursor
            ≡ begin_at (lag q) now q.virtual_cursor + duration t (front_unlocked q))
        × ((activate_front q now).metrics.messages_skipped ≡ q.metrics.messages_skipped)
  unfolding activate_front
  activate_front_lem q now v h = ground (arith, pop_refines q v h, pop_unlocked-IsValid q v)

  pub pending-nil : (q : MessageQueue t) → q.count ≡ 0 → pending q ≡ []
  pending-nil q e = rw e

  -- What a promotion leaves, with the specification of it.
  pub record Promoted (q q' : MessageQueue t) (s : Schedule t) : Type 0 where
    pub valid : IsValid q'
    pub kept : Kept q q'
    pub same : schedule q' ≡ s

  promote_loop_stop :
      (q : MessageQueue t) (now : Time)
      → q.active ≡ none
      → q.count ≡ 0
      → schedule q ≡ promote t (lag q) now q.virtual_cursor (pending q) q.metrics.messages_skipped
  unfolding promote
  promote_loop_stop q now idle e = ground (arith, pending-nil q e)

  promote_skip :
      (q : MessageQueue t) (n : ℕ) (now : Time)
      → 0 < q.count
      → leb (q.virtual_cursor + duration t (front_unlocked q) + lag q) now ≡ true
      → promote_loop (suc n) q now ≡ promote_loop n (skip_front q) now
  unfolding promote_loop
  promote_skip q n now h stale = ground arith

  promote_activate :
      (q : MessageQueue t) (n : ℕ) (now : Time)
      → 0 < q.count
      → leb (q.virtual_cursor + duration t (front_unlocked q) + lag q) now ≡ false
      → promote_loop (suc n) q now ≡ activate_front q now
  unfolding promote_loop
  promote_activate q n now h fresh = ground arith

  pub promote_loop_lem :
      (n : ℕ) (q : MessageQueue t) (now : Time)
      → IsValid q
      → q.active ≡ none
      → q.count ≡ n
      → Promoted q
          (promote_loop n q now)
          (promote t (lag q) now q.virtual_cursor (pending q) q.metrics.messages_skipped)
  promote_loop_lem zero q now v idle e = record {
    valid = unfold promote_loop in v;
    kept =
        unfold promote_loop in
        (record { config = refl; received = refl; overflows = refl; last_rx = refl });
    same = unfold promote_loop in (promote_loop_stop q now idle e);
  }
  promote_loop_lem (suc n) q now v idle e =
      elim (Bool-cases (leb (q.virtual_cursor + duration t (front_unlocked q) + lag q) now)) [
        | inl stale ↦
            let f = skip_front_lem q v (omega arith) in
            let p = promote_loop_lem n (skip_front q) now f.0 (f.4 ∙ idle) (omega (arith, f.3)) in
            rw (promote_skip q n now (omega arith) stale) (record {
              valid = p.valid;
              kept = Kept-trans f.2 p.kept;
              same =
                  p.same
                  ∙ (λ i.
                      promote t (milliseconds (f.2.config i).max_command_lag) now (f.5 i)
                        (pending (skip_front q)) (f.6 i))
                  ∙ sym (
                      promote_stale t (lag q) now q.virtual_cursor (front_unlocked q)
                        (pending (skip_front q)) q.metrics.messages_skipped stale)
                  ∙ ap (λ l. promote t (lag q) now q.virtual_cursor l q.metrics.messages_skipped)
                      (sym f.1);
            })
        | inr fresh ↦
            let f = activate_front_lem q now v (omega arith) in
            rw (promote_activate q n now (omega arith) fresh) (record {
              valid = f.0;
              kept = f.2;
              same =
                  (λ i. record {
                    active = f.4 i;
                    cursor = f.5 i;
                    waiting = pending (activate_front q now);
                    skipped = f.6 i;
                  })
                  ∙ sym (
                      promote_fresh t (lag q) now q.virtual_cursor (front_unlocked q)
                        (pending (activate_front q now)) q.metrics.messages_skipped fresh)
                  ∙ ap (λ l. promote t (lag q) now q.virtual_cursor l q.metrics.messages_skipped)
                      (sym f.1);
            })
      ]
