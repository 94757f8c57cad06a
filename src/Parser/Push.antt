-- ===== src/Parser/Push.antt =====
-- `Push` delivers every packet that its bytes complete.
use bcnp.Base.{
  ℕ, suc, ◌+◌, ◌-◌, ◌≤◌, ◌<◌, ◌≡◌, refl, ◌∙◌, arith, min, true, some, List, ◌∷◌, ◌++◌, All, length,
  take-all, drop-all, ltb, Bool-cases, inl, inr,
}
use bcnp.Wire.{Bytes}
use bcnp.Message.{MessageInfo}
use bcnp.Packet.Types.{PacketView}
use bcnp.Parser.{StreamParser, lookup_wire_size, write_to_buffer}
use bcnp.Parser.Loop.{parse_buffer, finished, push_loop, last_parse, push}
use bcnp.Parser.Ring.{IsValid, content, write_to_buffer_refines, length-write_to_buffer}
use bcnp.Parser.Sendable.{frames, IsSendable, IsPartial}
use bcnp.Parser.Wait.{Waited, Waited-self, parse_buffer_waits}
use bcnp.Parser.Stream.{Streamed, lookup-same, parse_buffer_delivers}

module _ (registry : List MessageInfo) (wire_size : ℕ → ℕ) where
  -- Input that fits into the ring is written in one piece.
  push_loop_fits :
      (rounds : ℕ) (p r : StreamParser) (left b : ℕ) (bs : Bytes)
      → p.size + length (b ∷ bs) ≤ length p.buffer
      → parse_buffer registry 1024 (write_to_buffer p (b ∷ bs)) ≡ (r, left)
      → push_loop registry (suc rounds) 1024 p (b ∷ bs) ≡ some (finished r left)
  unfolding push_loop
  push_loop_fits rounds p r left b bs room e = ground (
    arith,
    e,
    take-all (length (b ∷ bs)) (b ∷ bs) (omega arith),
    drop-all (length (b ∷ bs)) (b ∷ bs) (omega arith),
    min_left (length (b ∷ bs)) (length p.buffer - p.size) (omega arith),
  )
    where
      min_left : (a c : ℕ) → a ≤ c → min a c ≡ a
      min_left a c h = omega arith

  last_parse_waits :
      (r : StreamParser) (left : ℕ)
      → IsValid r
      → ((n : ℕ) → lookup_wire_size registry r n ≡ wire_size n)
      → IsPartial wire_size (content r)
      → Waited r (last_parse registry (finished r left))
  last_parse_waits r left v known part = elim (Bool-cases (ltb 0 left)) [
    | inl some_left ↦ rw some_left (parse_buffer_waits registry wire_size left r v known part)
    | inr spent ↦ rw spent (Waited-self r v)
  ]

  push_fits :
      (p r : StreamParser) (left b : ℕ) (bs : Bytes)
      → p.size + length (b ∷ bs) ≤ length p.buffer
      → parse_buffer registry 1024 (write_to_buffer p (b ∷ bs)) ≡ (r, left)
      → push registry p (some (b ∷ bs)) ≡ some (last_parse registry (finished r left))
  unfolding push
  push_fits p r left b bs room e =
      rw (push_loop_fits (length bs) p r left b bs room e) (ground arith)

  -- Where what the ring held and the pushed bytes together are whole packets and no more than a part
  -- of another one, and fit into the ring, the push hands every packet to the callback, in order, and
  -- keeps the rest. It takes fewer than the 1024 rounds of one push, one for each packet.
  pub push_delivers :
      (p : StreamParser) (b : ℕ) (bs rest : Bytes) (vs : List PacketView)
      → IsValid p
      → p.on_packet ≡ true
      → ((n : ℕ) → lookup_wire_size registry p n ≡ wire_size n)
      → All (IsSendable wire_size) vs
      → content p ++ (b ∷ bs) ≡ frames vs ++ rest
      → IsPartial wire_size rest
      → length vs < 1024
      → p.size + length (b ∷ bs) ≤ length p.buffer
      → (q : StreamParser) × (push registry p (some (b ∷ bs)) ≡ some q) × Streamed p q vs rest
  unfolding push write_to_buffer
  push_delivers p b bs rest vs v on known s e part few room =
      let w = write_to_buffer_refines p (b ∷ bs) v room in
      let (r, left) = parse_buffer registry 1024 (write_to_buffer p (b ∷ bs)) in
      let written = write_to_buffer p (b ∷ bs) in
      let d =
        parse_buffer_delivers registry wire_size vs rest 1024 (write_to_buffer p (b ∷ bs)) w.1 on
          (λ n. lookup-same registry wire_size p (write_to_buffer p (b ∷ bs)) n refl ∙ known n) s
          (w.0 ∙ e) part (omega arith) in
      let k =
        last_parse_waits r left d.valid
          (λ n. lookup-same registry wire_size p r n d.lookup ∙ known n) (rw d.left part) in
      (
        last_parse registry (finished r left),
        push_fits p r left b bs room refl,
        record {
          valid = k.valid;
          left = k.left ∙ d.left;
          events = k.events ∙ d.events;
          offset = k.offset ∙ d.offset;
          on_packet = k.on_packet ∙ d.on_packet;
          lookup = k.lookup ∙ d.lookup;
          capacity = k.capacity ∙ d.capacity ∙ length-write_to_buffer p (b ∷ bs) v room;
        },
      )
