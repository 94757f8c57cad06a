-- ===== src/Queue/OnTime.antt =====
-- What the schedule of an update means for a client: the active message is not over, nothing waits
-- while the queue is idle, and the order of the messages is kept.
use bcnp.Base.{
  ℕ, zero, suc, ◌+◌, ◌%◌, ◌^◌, ◌<◌, ◌≡◌, ◌≢◌, refl, sym, ap, ◌∙◌, arith, true, none, some,
  Option-cases, List, [], ◌∷◌, ◌++◌, length, append_assoc, leb, ltb, ◌==◌, if◌then◌else◌,
  Bool-cases, inl, inr, ◌⊎◌, ltb→lt,
}
use mathlib.Core.Path.{subst}
use bcnp.Queue.{Time, Timed, ActiveSlot, MessageQueue, duration, is_connected}
use bcnp.Queue.Update.{lag, update}
use bcnp.Queue.Ring.{IsValid, pending}
use bcnp.Queue.Schedule.{
  Schedule, end_of, promote, resume, run, resume_shrinks, run_idle, run_busy, run_over, updated,
  updated-some, updated-none,
}
use bcnp.Queue.Promote.{schedule}
use bcnp.Queue.Next.{Seeded}
use bcnp.Queue.Refine.{update_refines}

module _ (t : Timed) (lag : ℕ) (now : Time) where
  -- Either idle with nothing that waits, or the active message ends after `now`.
  abbrev pub Settled : Schedule t → Type 0
  Settled s =
      ((s.active ≡ none) × (s.waiting ≡ []))
      ⊎ ((slot : ActiveSlot t) × (s.active ≡ some slot) × (now < end_of t slot))

  -- The later list is what is left of the earlier one.
  abbrev pub Suffix : List t.Msg → List t.Msg → Type 0
  Suffix l l' = (gone : List t.Msg) × (l ≡ gone ++ l')

  promote_idle :
      (cursor : Time) (ms : List t.Msg) (skipped : ℕ)
      → (promote t lag now cursor ms skipped).active ≡ none
      → (promote t lag now cursor ms skipped).waiting ≡ []
  unfolding promote
  promote_idle cursor [] skipped e = refl
  promote_idle cursor (m ∷ ms) skipped e =
      ground (arith, promote_idle (cursor + duration t m) ms ((skipped + 1) % 2 ^ 64))

  resume_idle :
      (cursor : Time) (ms : List t.Msg) (skipped : ℕ)
      → (resume t lag now cursor ms skipped).active ≡ none
      → (resume t lag now cursor ms skipped).waiting ≡ []
  unfolding resume
  resume_idle cursor [] skipped e = refl
  resume_idle cursor (m ∷ ms) skipped e =
      promote_idle (if cursor == 0 then now else cursor) (m ∷ ms) skipped e

  Settled-next :
      (n : ℕ) (s' : Schedule t)
      → (s'.active ≡ none → s'.waiting ≡ [])
      → ((slot : ActiveSlot t) → s'.active ≡ some slot → Settled (run t lag now n s'))
      → Settled (run t lag now n s')
  Settled-next n s' idle busy = elim (Option-cases s'.active) [
    | inl e ↦ rw (run_idle t lag now n s' e) (inl (e, idle e))
    | inr (slot, e) ↦ busy slot e
  ]

  run-Settled :
      (n : ℕ) (s : Schedule t)
      → (s.active ≡ none → s.waiting ≡ [])
      → length s.waiting < n
      → Settled (run t lag now n s)
  run-Settled zero s idle less = absurd (omega arith)
  run-Settled (suc n) s idle less = elim (Option-cases s.active) [
    | inl e ↦ rw (run_idle t lag now (suc n) s e) (inl (e, idle e))
    | inr (slot, e) ↦ elim (Bool-cases (ltb now (end_of t slot))) [
      | inl busy ↦
          rw (run_busy t lag now (suc n) s slot e busy)
            (inr (slot, e, ltb→lt now (end_of t slot) busy))
      | inr over ↦
          let next = resume t lag now (end_of t slot) s.waiting s.skipped in
          let idle' = resume_idle (end_of t slot) s.waiting s.skipped in
          rw (run_over t lag now n s slot e over) (
            Settled-next n next idle' (λ slot' e'.
              let shrinks = resume_shrinks t lag now (end_of t slot) s.waiting s.skipped slot' e' in
              run-Settled n next idle' (omega arith)))
    ]
  ]

  promote-Suffix :
      (cursor : Time) (ms : List t.Msg) (skipped : ℕ)
      → Suffix ms (promote t lag now cursor ms skipped).waiting
  unfolding promote
  promote-Suffix cursor [] skipped = ([], refl)
  promote-Suffix cursor (m ∷ ms) skipped =
      let later = promote-Suffix (cursor + duration t m) ms ((skipped + 1) % 2 ^ 64) in
      elim (Bool-cases (leb (cursor + duration t m + lag) now)) [
        | inl stale ↦ rw stale (m ∷ later.0, ap (λ l. m ∷ l) later.1)
        | inr fresh ↦ rw fresh (m ∷ [], refl)
      ]

  resume-Suffix :
      (cursor : Time) (ms : List t.Msg) (skipped : ℕ)
      → Suffix ms (resume t lag now cursor ms skipped).waiting
  unfolding resume
  resume-Suffix cursor [] skipped = ([], refl)
  resume-Suffix cursor (m ∷ ms) skipped =
      promote-Suffix (if cursor == 0 then now else cursor) (m ∷ ms) skipped

  run-Suffix : (n : ℕ) (s : Schedule t) → Suffix s.waiting (run t lag now n s).waiting
  unfolding run
  run-Suffix zero s = ([], refl)
  run-Suffix (suc n) s = elim (Option-cases s.active) [
    | inl e ↦ rw e ([], refl)
    | inr (slot, e) ↦
        let first = resume-Suffix (end_of t slot) s.waiting s.skipped in
        let later = run-Suffix n (resume t lag now (end_of t slot) s.waiting s.skipped) in
        elim (Bool-cases (ltb now (end_of t slot))) [
          | inl busy ↦ rw e (rw busy ([], refl))
          | inr over ↦ rw e (
              rw over (
                first.0 ++ later.0,
                first.1 ∙ ap (λ l. first.0 ++ l) later.1 ∙ sym (append_assoc first.0 later.0 _),
              ))
        ]
  ]

  updated-Settled : (s : Schedule t) → Settled (updated t lag now s)
  updated-Settled s = elim (Option-cases s.active) [
    | inl e ↦
        let first = resume t lag now s.cursor s.waiting s.skipped in
        let idle = resume_idle s.cursor s.waiting s.skipped in
        rw (updated-none t lag now s (length s.waiting) e refl) (
          Settled-next (length s.waiting + 1) first idle (λ slot e'.
            let shrinks = resume_shrinks t lag now s.cursor s.waiting s.skipped slot e' in
            run-Settled (length s.waiting + 1) first idle (omega arith)))
    | inr (slot, e) ↦ rw (updated-some t lag now s slot (length s.waiting) e refl) (
        run-Settled (suc (length s.waiting + 1)) s (λ e'. absurd (none≢some (sym e' ∙ e)))
          (omega arith))
  ]
    where
      none≢some : {slot : ActiveSlot t} → none ≢ some slot
      none≢some e = cc

  updated-Suffix : (s : Schedule t) → Suffix s.waiting (updated t lag now s).waiting
  updated-Suffix s = elim (Option-cases s.active) [
    | inl e ↦
        let first = resume-Suffix s.cursor s.waiting s.skipped in
        let later =
          run-Suffix (length s.waiting + 1) (resume t lag now s.cursor s.waiting s.skipped) in
        rw (updated-none t lag now s (length s.waiting) e refl) (
          first.0 ++ later.0,
          first.1 ∙ ap (λ l. first.0 ++ l) later.1 ∙ sym (append_assoc first.0 later.0 _),
        )
    | inr (slot, e) ↦
        rw (updated-some t lag now s slot (length s.waiting) e refl)
          (run-Suffix (suc (length s.waiting + 1)) s)
  ]

-- After an update of a connected queue, either the queue is idle and nothing waits, or the active
-- message ends after `now`; and the waiting messages are the last of those that waited before it.
pub update_settles :
    {t : Timed} (q : MessageQueue t) (now : Time)
    → IsValid q
    → Seeded q
    → is_connected q now ≡ true
    → (q' : MessageQueue t) × (update q now ≡ some q')
      × Settled t (lag q) now (schedule q')
      × Suffix t (lag q) now (pending q) (pending q')
update_settles {t} q now v s c =
    let u = update_refines q now v s c in
    (
      u.0,
      u.1,
      subst (Settled t (lag q) now) (sym u.2) (updated-Settled t (lag q) now (schedule q)),
      subst (λ s'. Suffix t (lag q) now (pending q) s'.waiting) (sym u.2)
          (updated-Suffix t (lag q) now (schedule q)),
    )
