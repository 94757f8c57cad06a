-- ===== src/Parser/Total.antt =====
-- `Push` always returns: every round of its loop takes bytes of the input.
use bcnp.Base.{
  ℕ, zero, suc, ◌-◌, ◌≤◌, ◌<◌, ◌≡◌, refl, arith, min, false, Option, none, some, List, [], ◌∷◌,
  length, length-take, length-drop, take, drop, ltb, ◌&&◌, ◌==◌, Bool-cases, inl, inr,
}
use bcnp.Wire.{Bytes}
use bcnp.Message.{MessageInfo}
use bcnp.Packet.Types.{too_many_messages}
use bcnp.Parser.{StreamParser, write_to_buffer}
use bcnp.Parser.Loop.{
  parse_buffer, PushEnd, returned, finished, is_full, overflow, make_room, push_loop, last_parse,
  push,
}
use bcnp.Parser.Ring.{IsValid, write_to_buffer_refines}
use bcnp.Parser.Account.{emit_error-Same, parse_buffer_accounts}

overflow-IsValid : (p : StreamParser) → IsValid p → IsValid (overflow p)
unfolding overflow
overflow-IsValid p v =
    let same = emit_error-Same p too_many_messages p.stream_offset v in
    record {
      roomy = same.valid.roomy;
      scratch_length = same.valid.scratch_length;
      head_in = omega (arith, same.valid.roomy);
      size_le = omega arith;
      offset_fits = omega arith;
    }

abbrev pub EndIsValid : PushEnd → Type 0
EndIsValid (returned p) = IsValid p
EndIsValid (finished p budget) = IsValid p

positive : (n : ℕ) → (n == 0) ≡ false → 0 < n
positive n e = ground arith

module _ (registry : List MessageInfo) where
  make_room-IsValid :
      (budget : ℕ) (p : StreamParser) → IsValid p → IsValid (make_room registry budget p).0
  make_room-IsValid budget p v = elim (Bool-cases (is_full p)) [
    | inl full ↦ rw full (parse_buffer_accounts registry budget p v).valid
    | inr room ↦ rw room v
  ]

  push_loop_returns :
      (rounds budget : ℕ) (p : StreamParser) (data_ : Bytes)
      → IsValid p
      → length data_ ≤ rounds
      → (end : PushEnd) × (push_loop registry rounds budget p data_ ≡ some end) × EndIsValid end
  unfolding push_loop
  push_loop_returns rounds budget p [] v enough = (finished p budget, refl, v)
  push_loop_returns zero budget p (b ∷ bs) v enough = absurd (omega arith)
  push_loop_returns (suc rounds) budget p (b ∷ bs) v enough =
      let (p', budget') = make_room registry budget p in
      let v' = make_room-IsValid budget p v in
      let writable = min (length (b ∷ bs)) (length p'.buffer - p'.size) in
      let written = write_to_buffer p' (take writable (b ∷ bs)) in
      let w =
        write_to_buffer_refines p' (take writable (b ∷ bs)) v'
          (omega (arith, length-take writable (b ∷ bs), v'.size_le)) in
      let stopped_at = parse_buffer registry budget' written in
      let rest = drop writable (b ∷ bs) in
      let parsed = parse_buffer_accounts registry budget' written w.1 in
      elim (Bool-cases (is_full p')) [
        | inl full ↦ rw full (returned (overflow p'), refl, overflow-IsValid p' v')
        | inr room ↦ rw room (elim (Bool-cases (budget' == 0)) [
          | inl spent ↦ rw spent (returned p', refl, v')
          | inr left ↦ rw left (elim (Bool-cases (writable == 0)) [
            | inl nothing ↦ rw nothing (finished p' budget', refl, v')
            | inr something ↦
                rw something (elim (Bool-cases (stopped_at.1 == 0 && ltb 0 (length rest))) [
                  | inl out_of_budget ↦ rw out_of_budget (returned stopped_at.0, refl, parsed.valid)
                  | inr on ↦
                      let taken = positive writable something in
                      rw on (
                        push_loop_returns rounds stopped_at.1 stopped_at.0 rest parsed.valid
                          (omega (arith, length-drop writable (b ∷ bs))))
                ])
          ])
        ])
      ]

  last_parse-IsValid : (end : PushEnd) → EndIsValid end → IsValid (last_parse registry end)
  last_parse-IsValid (returned p) v = v
  last_parse-IsValid (finished p budget) v = elim (Bool-cases (ltb 0 budget)) [
    | inl left ↦ rw left (parse_buffer_accounts registry budget p v).valid
    | inr spent ↦ rw spent v
  ]

  -- A push always returns, whatever the input and the state of the ring are, and it leaves a valid
  -- parser.
  pub push_returns :
      (p : StreamParser) (data_ : Option Bytes)
      → IsValid p
      → (q : StreamParser) × (push registry p data_ ≡ some q) × IsValid q
  unfolding push
  push_returns p none v = (p, refl, v)
  push_returns p (some data_) v = elim (Bool-cases (length data_ == 0)) [
    | inl nothing ↦ rw nothing (p, refl, v)
    | inr something ↦
        let (end, e, w) = push_loop_returns (length data_) 1024 p data_ v (omega arith) in
        rw something (rw e (last_parse registry end, refl, last_parse-IsValid end w))
  ]
