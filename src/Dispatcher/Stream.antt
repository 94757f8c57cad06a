-- ===== src/Dispatcher/Stream.antt =====
-- Bytes that come in pieces, pushed into a dispatcher.
use mathlib.Core.Path.{subst}
use bcnp.Base.{
  ℕ, append_assoc, append-nil, ◌+◌, ◌≤◌, ◌<◌, ◌≡◌, refl, sym, ap, ◌∙◌, Option, none, some, List, [],
  ◌∷◌, ◌++◌, All, length,
}
use bcnp.Wire.{Bytes}
use bcnp.Message.{MessageInfo}
use bcnp.Queue.{Time}
use bcnp.Packet.Types.{PacketView}
use bcnp.Parser.Ring.{content}
use bcnp.Parser.Chunks.{Receives, push-Receives, none_left, all_done, concat}
use bcnp.Dispatcher.{PacketDispatcher, handle_events, push_bytes}
use bcnp.Dispatcher.Receive.{
  Dispatched, Dispatched-handle_events, Dispatched-trans, unlogged, handle_events-parser, reparsed,
}

module _ {ℓ} {S : Type ℓ} (registry : List MessageInfo) (clock : ℕ → Time) where
  abbrev pub push_all_bytes : PacketDispatcher S → List Bytes → Option (PacketDispatcher S)
  push_all_bytes d [] = some d
  push_all_bytes d (c ∷ cs) = elim (push_bytes registry clock d (some c)) [
    | none ↦ none
    | some e ↦ push_all_bytes e cs
  ]

module _ {ℓ} {S : Type ℓ} (registry : List MessageInfo) (clock : ℕ → Time) (wire_size : ℕ → ℕ)
    (longest : ℕ) where
  -- What the dispatcher has done of the packets, and what it waits for.
  pub record Step (d e : PacketDispatcher S) (vs : List PacketView) (later : Bytes) : Type ℓ where
    pub done : List PacketView
    pub left : List PacketView
    pub joined : done ++ left ≡ vs
    pub dispatched : Dispatched clock d e done
    pub receives : Receives registry wire_size longest e.parser left later
    pub capacity : length e.parser.buffer ≡ length d.parser.buffer

  push_bytes-Step :
      (d : PacketDispatcher S) (c later : Bytes) (vs : List PacketView)
      → Receives registry wire_size longest d.parser vs (c ++ later)
      → longest + length c ≤ length d.parser.buffer
      → 0 < longest
      → (e : PacketDispatcher S) × (push_bytes registry clock d (some c) ≡ some e)
        × Step d e vs later
  unfolding push_bytes
  push_bytes-Step d c later vs r room pos =
      let (q, pushed, s) =
        push-Receives registry wire_size longest (record d.parser { events = [] }) c later vs
          (unlogged registry wire_size longest d.parser vs (c ++ later) r) room pos in
      let e = handle_events clock (record d { parser = q }) q.events in
      let kept = handle_events-parser clock (record d { parser = q }) q.events in
      (
        e,
        ap
            (λ r. elim r [
              | none ↦ none
              | some p ↦ some (handle_events clock (record d { parser = p }) p.events)
            ])
            pushed,
        record {
          done = s.done;
          left = s.left;
          joined = s.joined;
          dispatched = reparsed clock d e q s.done (
              subst
                (λ es.
                  Dispatched clock (record d { parser = q })
                    (handle_events clock (record d { parser = q }) es) s.done)
                (sym s.streamed.events)
                (Dispatched-handle_events clock (record d { parser = q }) s.done));
          receives =
              subst (λ p. Receives registry wire_size longest p s.left later) (sym kept) s.receives;
          capacity = ap (λ p. length p.buffer) kept ∙ s.streamed.capacity;
        },
      )

  push_all_bytes_cons :
      (d e : PacketDispatcher S) (c : Bytes) (cs : List Bytes)
      → push_bytes registry clock d (some c) ≡ some e
      → push_all_bytes registry clock d (c ∷ cs) ≡ push_all_bytes registry clock e cs
  push_all_bytes_cons d e c cs h =
      ap (λ r. elim r [ none ↦ none | some next ↦ push_all_bytes registry clock next cs ]) h

  -- However the bytes of a sequence of packets are cut into pieces, pushing the first pieces into the
  -- dispatcher calls the handlers of the packets that they complete, one after the other in the order
  -- of the packets, and keeps the part of a packet at the end for the pieces to come.
  pub push_all_bytes_steps :
      (cs : List Bytes) (later : Bytes) (d : PacketDispatcher S) (vs : List PacketView)
      → Receives registry wire_size longest d.parser vs (concat cs ++ later)
      → 0 < longest
      → All (λ c. longest + length c ≤ length d.parser.buffer) cs
      → (e : PacketDispatcher S) × (push_all_bytes registry clock d cs ≡ some e) × Step d e vs later
  push_all_bytes_steps [] later d vs r pos room = (
    d,
    refl,
    record {
      done = [];
      left = vs;
      joined = refl;
      dispatched = Dispatched-handle_events clock d [];
      receives = r;
      capacity = refl;
    },
  )
  push_all_bytes_steps (c ∷ cs) later d vs r pos room =
      let whole =
        subst (Receives registry wire_size longest d.parser vs) (append_assoc c (concat cs) later)
          r in
      let (e, pushed, s) = push_bytes-Step d c (concat cs ++ later) vs whole room.0 pos in
      let (z, all, t) =
        push_all_bytes_steps cs later e s.left s.receives pos (rw s.capacity room.1) in
      (
        z,
        push_all_bytes_cons d e c cs pushed ∙ all,
        record {
          done = s.done ++ t.done;
          left = t.left;
          joined = append_assoc s.done t.done t.left ∙ ap (λ ws. s.done ++ ws) t.joined ∙ s.joined;
          dispatched = Dispatched-trans s.dispatched t.dispatched;
          receives = t.receives;
          capacity = t.capacity ∙ s.capacity;
        },
      )

  -- However the bytes of a sequence of packets are cut into pieces, pushing the pieces into the
  -- dispatcher calls the handlers of the packets, one after the other in the order of the packets,
  -- counts no parse error, and takes the time of the last packet for the last receive time: where the
  -- ring takes a piece besides a part of the longest packet, and is smaller than 11264 bytes.
  pub push_all_bytes_dispatches :
      (cs : List Bytes) (d : PacketDispatcher S) (vs : List PacketView)
      → Receives registry wire_size longest d.parser vs (concat cs)
      → 0 < longest
      → All (λ c. longest + length c ≤ length d.parser.buffer) cs
      → (e : PacketDispatcher S) × (push_all_bytes registry clock d cs ≡ some e)
        × Dispatched clock d e vs
        × (content e.parser ≡ [])
  push_all_bytes_dispatches cs d vs r pos room =
      let whole =
        subst (Receives registry wire_size longest d.parser vs) (sym (append-nil (concat cs))) r in
      let (e, pushed, s) = push_all_bytes_steps cs [] d vs whole pos room in
      let none_is = none_left registry wire_size longest e.parser s.left s.receives in
      let all_is : s.done ≡ vs =
        sym (append-nil s.done) ∙ ap (λ ws. s.done ++ ws) (sym none_is) ∙ s.joined in
      (
        e,
        pushed,
        subst (Dispatched clock d e) all_is s.dispatched,
        (all_done registry wire_size longest e.parser s.left s.receives).left,
      )
