-- ===== src/Jni/Streams.antt =====
-- The stream parser of the Java binding: what is pushed in pieces is popped as packets.
use bcnp.Base.{
  ℕ, zero, suc, ◌+◌, ◌≤◌, ◌<◌, ◌≡◌, refl, sym, ap, ◌∙◌, arith, not, Option, none, some, List, [],
  ◌∷◌, ◌++◌, append-nil, append_assoc, map, length, take, take-all, All,
}
use bcnp.Base.Words.{u32}
use bcnp.Wire.{Bytes}
use bcnp.Message.{MessageInfo}
use bcnp.Packet.Types.{PacketView}
use bcnp.Parser.{StreamParser}
use bcnp.Parser.Loop.{push}
use bcnp.Parser.Sendable.{packets}
use bcnp.Parser.Chunks.{Receives, push-Receives, none_left, concat}
use bcnp.Dispatcher.Receive.{unlogged}
use bcnp.Base.Choices.{pick_false}
use bcnp.Jni.{
  JavaStreamParser, views_of, is_positive, size_of, stream_parser_push, stream_parser_pop,
}

-- One `streamParserPush` after the other.
abbrev pub push_pieces : List MessageInfo → JavaStreamParser → List Bytes → Option JavaStreamParser
push_pieces registry j [] = some j
push_pieces registry j (c ∷ cs) = elim (stream_parser_push registry j (some c) (length c)) [
  | none ↦ none
  | some k ↦ push_pieces registry k cs
]

-- At most `n` calls of `streamParserPop`, up to one that has nothing.
abbrev pub pops : ℕ → JavaStreamParser → List (ℕ × ℕ × ℕ)
pops zero j = []
pops (suc n) j =
    let (r, k) = stream_parser_pop j in
    let later = pops n k in elim r [ none ↦ [] | some x ↦ x ∷ later ]

-- What a pop tells of a packet.
abbrev pub summary : PacketView → ℕ × ℕ × ℕ
summary v = (u32 (length v.payload), v.header.message_type, v.header.message_count)

views_of-packets : (vs : List PacketView) → views_of (packets vs) ≡ vs
views_of-packets [] = refl
views_of-packets (v ∷ vs) = ap (λ l. v ∷ l) (views_of-packets vs)

pops-pending :
    (p : StreamParser) (vs : List PacketView)
    → pops (length vs) (record { parser = p; pending_packets = vs }) ≡ map summary vs
unfolding stream_parser_pop
pops-pending p [] = refl
pops-pending p (v ∷ vs) = ap (λ l. summary v ∷ l) (pops-pending p vs)

module _ (registry : List MessageInfo) (wire_size : ℕ → ℕ) (longest : ℕ) where
  -- What the binding has got of the packets, and what it waits for.
  record Pushed (j k : JavaStreamParser) (vs : List PacketView) (later : Bytes) : Type 0 where
    done : List PacketView
    left : List PacketView
    joined : done ++ left ≡ vs
    pending : k.pending_packets ≡ j.pending_packets ++ done
    receives : Receives registry wire_size longest k.parser left later
    capacity : length k.parser.buffer ≡ length j.parser.buffer

  push-Pushed :
      (j : JavaStreamParser) (c later : Bytes) (vs : List PacketView)
      → Receives registry wire_size longest j.parser vs (c ++ later)
      → longest + length c ≤ length j.parser.buffer
      → 0 < longest
      → (k : JavaStreamParser) × (stream_parser_push registry j (some c) (length c) ≡ some k)
        × Pushed j k vs later
  unfolding stream_parser_push
  push-Pushed j [] later vs r room pos = (
    j,
    refl,
    record {
      done = [];
      left = vs;
      joined = refl;
      pending = sym (append-nil j.pending_packets);
      receives = r;
      capacity = refl;
    },
  )
  push-Pushed j (b ∷ bs) later vs r room pos =
      let (q, pushed, s) =
        push-Receives registry wire_size longest (record j.parser { events = [] }) (b ∷ bs) later vs
          (unlogged registry wire_size longest j.parser vs ((b ∷ bs) ++ later) r) room pos in
      let whole : take (size_of (length (b ∷ bs))) (b ∷ bs) ≡ b ∷ bs =
        take-all (size_of (length (b ∷ bs))) (b ∷ bs) (ground (arith, r.small)) in
      (
        record { parser = q; pending_packets = j.pending_packets ++ views_of q.events },
        pick_false {b = not (is_positive (length (b ∷ bs)))} _ _ (ground (arith, r.small))
            ∙ ap
                (λ x. elim x [
                  | none ↦ none
                  | some p ↦ some (record {
                    parser = p;
                    pending_packets = j.pending_packets ++ views_of p.events;
                  })
                ])
                (ap (λ l. push registry (record j.parser { events = [] }) (some l)) whole ∙ pushed),
        record {
          done = s.done;
          left = s.left;
          joined = s.joined;
          pending =
              ap (λ es. j.pending_packets ++ views_of es) s.streamed.events
              ∙ ap (λ l. j.pending_packets ++ l) (views_of-packets s.done);
          receives = s.receives;
          capacity = s.streamed.capacity;
        },
      )

  pieces :
      (cs : List Bytes) (j : JavaStreamParser) (vs : List PacketView)
      → Receives registry wire_size longest j.parser vs (concat cs)
      → 0 < longest
      → All (λ c. longest + length c ≤ length j.parser.buffer) cs
      → (k : JavaStreamParser) × (push_pieces registry j cs ≡ some k)
        × (k.pending_packets ≡ j.pending_packets ++ vs)
  pieces [] j vs r pos room = (
    j,
    refl,
    sym (append-nil j.pending_packets)
        ∙ ap (λ l. j.pending_packets ++ l)
            (sym (none_left registry wire_size longest j.parser vs r)),
  )
  pieces (c ∷ cs) j vs r pos room =
      let (k, pushed, s) = push-Pushed j c (concat cs) vs r room.0 pos in
      let (z, all, pending) = pieces cs k s.left s.receives pos (rw s.capacity room.1) in
      (
        z,
        ap (λ x. elim x [ none ↦ none | some next ↦ push_pieces registry next cs ]) pushed ∙ all,
        pending
            ∙ ap (λ l. l ++ s.left) s.pending
            ∙ append_assoc j.pending_packets s.done s.left
            ∙ ap (λ l. j.pending_packets ++ l) s.joined,
      )

  -- However the bytes of a sequence of packets are cut into the pieces that are pushed, where the ring
  -- takes a piece besides a part of the longest packet and is smaller than 11264 bytes: the pushes return, and as many pops as there
  -- are packets tell the payload size, the type and the count of each of them, in order.
  pub pushed_is_popped :
      (cs : List Bytes) (p : StreamParser) (vs : List PacketView)
      → Receives registry wire_size longest p vs (concat cs)
      → 0 < longest
      → All (λ c. longest + length c ≤ length p.buffer) cs
      → (k : JavaStreamParser) × (push_pieces registry
            (record { parser = p; pending_packets = [] })
            cs
          ≡ some k)
        × (pops (length vs) k ≡ map summary vs)
  pushed_is_popped cs p vs r pos room =
      let (k, all, pending) =
        pieces cs (record { parser = p; pending_packets = [] }) vs r pos room in
      (
        k,
        all,
        ap (λ l. pops (length vs) (record { parser = k.parser; pending_packets = l })) pending
            ∙ pops-pending k.parser vs,
      )
