-- ===== src/Packet/Iterator.antt =====
-- `MessageIterator` of packet.h, and the typed range of a view. A pointer into the payload is an
-- offset, and `none` is the null pointer.
use bcnp.Base.{
  ℕ, zero, suc, ◌+◌, ◌-◌, ◌≡◌, refl, sym, ap, ◌∙◌, arith, Bool, true, false, ◌&&◌, Option, none,
  some, Option-cases, Bool-cases, some_injective, List, [], ◌∷◌, ◌++◌, append-nil, append_assoc,
  drop, drop-drop, ltb, ◌==◌, ◌/=◌, ◌<◌, if◌then◌else◌, inl, inr,
}
use bcnp.Base.Choices.{pick_false}
use bcnp.Wire.{Bytes}
use bcnp.Message.{MessageType}
use bcnp.Packet.Types.{PacketView, TypedPacket}
use bcnp.Packet.Decode.{decode_messages, decode_typed_packet}

pub record MessageIterator : Type 0 where
  pub payload : Bytes
  pub ptr : Option ℕ
  pub count : ℕ

abbrev pub same_ptr : Option ℕ → Option ℕ → Bool
same_ptr none none = true
same_ptr none (some b) = false
same_ptr (some a) none = false
same_ptr (some a) (some b) = a == b

-- `operator==`, of two iterators on one payload.
abbrev pub iterator_equal : MessageIterator → MessageIterator → Bool
iterator_equal a b =
    if a.count == 0 && b.count == 0 then true else same_ptr a.ptr b.ptr && a.count == b.count

module _ (t : MessageType) where
  -- `operator*`; `blank` is `MsgType{}`. A null pointer is never read by a loop over the range.
  unfoldable pub dereference : t.Msg → MessageIterator → t.Msg
  dereference blank it = elim it.ptr [
    | none ↦ blank
    | some offset ↦ elim (t.decode (drop offset it.payload)) [ none ↦ blank | some m ↦ m ]
  ]

  abbrev pub move_on : Option ℕ → Option ℕ
  move_on none = none
  move_on (some offset) = some (offset + t.wire_size)

  -- The pre-increment.
  unfoldable pub increment : MessageIterator → MessageIterator
  increment it =
      let moved =
        if ltb 0 it.count then record it { ptr = move_on it.ptr; count = it.count - 1 } else it in
      if moved.count == 0 then record moved { ptr = none } else moved

  unfoldable pub begin_as : PacketView → MessageIterator
  begin_as v =
      if t.type_id /= v.header.message_type
      then record { payload = v.payload; ptr = none; count = 0 }
      else record { payload = v.payload; ptr = some 0; count = v.header.message_count }

  abbrev pub end_as : PacketView → MessageIterator
  end_as v = record { payload = v.payload; ptr = none; count = 0 }

  abbrev pub put_first :
      t.Msg → Option (List t.Msg × MessageIterator) → Option (List t.Msg × MessageIterator)
  put_first m none = none
  put_first m (some r) = some (m ∷ r.0, r.1)

  -- The messages that a loop from one iterator to the other sees, and the iterator at which it ends;
  -- `none` if it goes on for more rounds than are given.
  unfoldable pub loop_over :
      ℕ → t.Msg → MessageIterator → MessageIterator → Option (List t.Msg × MessageIterator)
  loop_over zero blank it end = none
  loop_over (suc rounds) blank it end =
      let rest = loop_over rounds blank (increment it) end in
      if iterator_equal it end then some ([], it) else put_first (dereference blank it) rest

  abbrev at : Bytes → ℕ → ℕ → MessageIterator
  at payload offset n = record { payload = payload; ptr = some offset; count = n }

  abbrev end_at : Bytes → MessageIterator
  end_at payload = record { payload = payload; ptr = none; count = 0 }

  -- The iterator with so many messages left, behind an increment.
  abbrev from : Bytes → ℕ → ℕ → MessageIterator
  from payload offset zero = end_at payload
  from payload offset (suc n) = at payload offset (suc n)

  increment-from :
      (payload : Bytes) (offset n : ℕ)
      → increment (at payload offset (suc n)) ≡ from payload (offset + t.wire_size) n
  unfolding increment
  increment-from payload offset zero = refl
  increment-from payload offset (suc n) = ground arith

  loop_over-end :
      (rounds : ℕ) (blank : t.Msg) (payload : Bytes) (ptr : Option ℕ)
      → let it : MessageIterator = record { payload = payload; ptr = ptr; count = 0 } in
        loop_over (suc rounds) blank it (end_at payload) ≡ some ([], it)
  unfolding loop_over
  loop_over-end rounds blank payload ptr = refl

  dereference_lem :
      (n : ℕ) (blank m : t.Msg) (payload : Bytes) (offset : ℕ)
      → t.decode (drop offset payload) ≡ some m
      → dereference blank (at payload offset n) ≡ m
  unfolding dereference
  dereference_lem n blank m payload offset e = rw e refl

  loop_over-step :
      (rounds n : ℕ) (blank m : t.Msg) (payload : Bytes) (offset : ℕ)
      → t.decode (drop offset payload) ≡ some m
      → loop_over (suc rounds) blank (at payload offset (suc n)) (end_at payload)
        ≡ put_first m
            (loop_over rounds blank (increment (at payload offset (suc n))) (end_at payload))
  unfolding loop_over
  loop_over-step rounds n blank m payload offset e =
      pick_false {b = iterator_equal (at payload offset (suc n)) (end_at payload)} _ _
        (ground arith)
      ∙ ap
          (λ k.
            put_first k
              (loop_over rounds blank (increment (at payload offset (suc n))) (end_at payload)))
          (dereference_lem (suc n) blank m payload offset e)

  decode_step :
      (n : ℕ) (ptr : Bytes) (out r : List t.Msg)
      → decode_messages t (suc n) ptr out ≡ some r
      → (m : t.Msg) × (t.decode ptr ≡ some m)
        × (decode_messages t n (drop t.wire_size ptr) (out ++ (m ∷ [])) ≡ some r)
  unfolding decode_messages
  decode_step n ptr out r e = elim (Option-cases (t.decode ptr)) [
    | inl fails ↦ absurd (ground (arith, fails))
    | inr (m, works) ↦ (m, works, ground (arith, works))
  ]

  loop_over-decode_messages :
      (n rounds : ℕ) (blank : t.Msg) (payload : Bytes) (offset : ℕ) (out r : List t.Msg)
      → n < rounds
      → decode_messages t n (drop offset payload) out ≡ some r
      → (ms : List t.Msg) × (loop_over rounds blank (from payload offset n) (end_at payload)
          ≡ some (ms, end_at payload))
        × (r ≡ out ++ ms)
  unfolding decode_messages
  loop_over-decode_messages n zero blank payload offset out r enough e = absurd (omega arith)
  loop_over-decode_messages zero (suc rounds) blank payload offset out r enough e =
      ([], loop_over-end rounds blank payload none, sym (some_injective e) ∙ sym (append-nil out))
  loop_over-decode_messages (suc n) (suc rounds) blank payload offset out r enough e =
      let (m, works, later) = decode_step n (drop offset payload) out r e in
      let (ms, loops, all) =
        loop_over-decode_messages n rounds blank payload (offset + t.wire_size) (out ++ (m ∷ [])) r
          (omega arith)
          (ap (λ l. decode_messages t n l (out ++ (m ∷ [])))
              (sym (drop-drop t.wire_size offset payload))
            ∙ later) in
      (
        m ∷ ms,
        loop_over-step rounds n blank m payload offset works
            ∙ ap (λ it. put_first m (loop_over rounds blank it (end_at payload)))
                (increment-from payload offset n)
            ∙ ap (put_first m) loops,
        all ∙ append_assoc out (m ∷ []) ms,
      )

  loop_over-begin :
      (n rounds : ℕ) (blank : t.Msg) (payload : Bytes) (r : List t.Msg)
      → n < rounds
      → decode_messages t n payload [] ≡ some r
      → (last : MessageIterator) × (loop_over rounds blank (at payload 0 n) (end_at payload)
          ≡ some (r, last))
        × (0 < n → last ≡ end_at payload)
  unfolding decode_messages
  loop_over-begin n zero blank payload r enough e = absurd (omega arith)
  loop_over-begin zero (suc rounds) blank payload r enough e = (
    at payload 0 0,
    loop_over-end rounds blank payload (some 0)
        ∙ ap (λ l. some (l, at payload 0 0)) (some_injective e),
    λ pos. absurd (omega arith),
  )
  loop_over-begin (suc n) (suc rounds) blank payload r enough e =
      let (ms, loops, all) =
        loop_over-decode_messages (suc n) (suc rounds) blank payload 0 [] r enough e in
      (end_at payload, loops ∙ ap (λ l. some (l, end_at payload)) (sym all), λ pos. refl)

  -- Where the typed decoder accepts a view, a loop over the typed range of the view ends within one
  -- round more than there are messages, has seen the very messages that the decoder returns, in their
  -- order, and, if there is a message, stands on the end iterator, with the pointer nulled.
  pub loop_over-decode_typed_packet :
      (rounds : ℕ) (blank : t.Msg) (v : PacketView) (packet : TypedPacket t)
      → v.header.message_count < rounds
      → decode_typed_packet t v ≡ some packet
      → (last : MessageIterator) × (loop_over rounds blank (begin_as v) (end_as v)
          ≡ some (packet.messages, last))
        × (0 < v.header.message_count → last ≡ end_as v)
  unfolding decode_typed_packet begin_as
  loop_over-decode_typed_packet rounds blank v packet enough e =
      elim (Bool-cases (v.header.message_type /= t.type_id)) [
        | inl other ↦ absurd (ground (arith, other))
        | inr same ↦ elim (Option-cases (decode_messages t v.header.message_count v.payload [])) [
          | inl fails ↦ absurd (ground (arith, same, fails))
          | inr (ms, works) ↦
              let begins : begin_as v ≡ at v.payload 0 v.header.message_count =
                ground (arith, same) in
              let (last, loops, stands) =
                loop_over-begin v.header.message_count rounds blank v.payload ms enough works in
              let result : ms ≡ packet.messages = ground (arith, same, works) in
              (
                last,
                ap (λ it. loop_over rounds blank it (end_as v)) begins
                    ∙ loops
                    ∙ ap (λ l. some (l, last)) result,
                stands,
              )
        ]
      ]
