-- ===== src/Parser/Chunks.antt =====
-- Packets that come in pieces, cut anywhere, are delivered as if they had come in one.
use bcnp.Base.{
  ℕ, ◌+◌, ◌%◌, ◌^◌, ◌≤◌, ◌<◌, ◌≡◌, refl, sym, ap, ◌∙◌, arith, true, Option, none, some, List, [],
  ◌∷◌, ◌++◌, append_assoc, append-nil, All, length, length-append, All-split,
}
use mathlib.Core.Path.{subst}
use native.Mathlib.Nat.{mod-add-mod}
use bcnp.Wire.{Bytes}
use bcnp.Message.{MessageInfo}
use bcnp.Packet.Types.{PacketView}
use bcnp.Packet.Frame.{frame, length-frame}
use bcnp.Parser.{StreamParser, packet, lookup_wire_size}
use bcnp.Parser.Loop.{push}
use bcnp.Parser.Ring.{IsValid, content, length-content}
use bcnp.Parser.Sendable.{frames, packets, IsSendable}
use bcnp.Parser.Split.{Owes, cut, cut-IsPartial, length-frames}
use bcnp.Parser.Stream.{Streamed, lookup-same}
use bcnp.Parser.Push.{push_delivers}

-- One push after the other.
abbrev pub push_all : List MessageInfo → StreamParser → List Bytes → Option StreamParser
push_all registry p [] = some p
push_all registry p (c ∷ cs) = elim (push registry p (some c)) [
  | none ↦ none
  | some q ↦ push_all registry q cs
]

pub push_all_cons :
    (registry : List MessageInfo) (p q : StreamParser) (c : Bytes) (cs : List Bytes)
    → push registry p (some c) ≡ some q
    → push_all registry p (c ∷ cs) ≡ push_all registry q cs
push_all_cons registry p q c cs e =
    ap (λ r. elim r [ none ↦ none | some next ↦ push_all registry next cs ]) e

pub push_all-none :
    (registry : List MessageInfo) (p : StreamParser) (c : Bytes) (cs : List Bytes)
    → push registry p (some c) ≡ none
    → push_all registry p (c ∷ cs) ≡ none
push_all-none registry p c cs e =
    ap (λ r. elim r [ none ↦ none | some next ↦ push_all registry next cs ]) e

abbrev pub concat : List Bytes → Bytes
concat [] = []
concat (c ∷ cs) = c ++ concat cs

packets-append : (vs ws : List PacketView) → packets (vs ++ ws) ≡ packets vs ++ packets ws
packets-append [] ws = refl
packets-append (v ∷ vs) ws = ap (λ l. packet v ∷ l) (packets-append vs ws)

length-frames_append :
    (vs ws : List PacketView) → length (frames (vs ++ ws)) ≡ length (frames vs) + length (frames ws)
length-frames_append [] ws = omega arith
length-frames_append (v ∷ vs) ws = omega (
  arith,
  length-append (frame v.header v.payload) (frames vs),
  length-append (frame v.header v.payload) (frames (vs ++ ws)),
  length-frames_append vs ws,
)

Streamed-self : (p : StreamParser) → IsValid p → Streamed p p [] (content p)
Streamed-self p v = record {
  valid = v;
  left = refl;
  events = sym (append-nil p.events);
  offset = omega (arith, v.offset_fits);
  on_packet = refl;
  lookup = refl;
  capacity = refl;
}

Streamed-trans :
    {p q r : StreamParser} {vs ws : List PacketView} {rest last : Bytes}
    → Streamed p q vs rest
    → Streamed q r ws last
    → Streamed p r (vs ++ ws) last
Streamed-trans {p} {q} {r} {vs} {ws} a b = record {
  valid = b.valid;
  left = b.left;
  events =
      b.events
      ∙ ap (λ l. l ++ packets ws) a.events
      ∙ append_assoc p.events (packets vs) (packets ws)
      ∙ ap (λ l. p.events ++ l) (sym (packets-append vs ws));
  offset =
      b.offset
      ∙ ap (λ k. (k + length (frames ws)) % 2 ^ 64) a.offset
      ∙ mod-add-mod (p.stream_offset + length (frames vs)) (2 ^ 64) (length (frames ws))
      ∙ ap (λ k. k % 2 ^ 64) (omega (arith, length-frames_append vs ws));
  on_packet = b.on_packet ∙ a.on_packet;
  lookup = b.lookup ∙ a.lookup;
  capacity = b.capacity ∙ a.capacity;
}

module _ (registry : List MessageInfo) (wire_size : ℕ → ℕ) (longest : ℕ) where
  -- A parser in the middle of a stream of packets, of which these are not done.
  pub record Receives (p : StreamParser) (vs : List PacketView) (later : Bytes) : Type 0 where
    pub valid : IsValid p
    pub on_packet : p.on_packet ≡ true
    pub known : (n : ℕ) → lookup_wire_size registry p n ≡ wire_size n
    pub sendable : All (IsSendable wire_size) vs
    pub short : All (λ v. 11 + length v.payload ≤ longest) vs
    pub stream : content p ++ later ≡ frames vs
    pub owes : Owes (content p) vs
    pub small : length p.buffer < 11264

  -- What one push does to it.
  pub record Received (p q : StreamParser) (vs : List PacketView) (later : Bytes) : Type 0 where
    pub done : List PacketView
    pub left : List PacketView
    pub joined : done ++ left ≡ vs
    pub streamed : Streamed p q done (content q)
    pub receives : Receives q left later

  pending :
      (p : StreamParser) (vs : List PacketView) (later : Bytes)
      → 0 < longest
      → Receives p vs later
      → p.size < longest
  pending p [] later pos r = omega (arith, length-content p, ap length r.owes)
  pending p (v ∷ vs) later pos r = omega (arith, length-content p, r.owes, r.short.0)

  pub push-Receives :
      (p : StreamParser) (c later : Bytes) (vs : List PacketView)
      → Receives p vs (c ++ later)
      → longest + length c ≤ length p.buffer
      → 0 < longest
      → (q : StreamParser) × (push registry p (some c) ≡ some q) × Received p q vs later
  unfolding push
  push-Receives p [] later vs r room pos = (
    p,
    refl,
    record {
      done = [];
      left = vs;
      joined = refl;
      streamed = Streamed-self p r.valid;
      receives = r;
    },
  )
  push-Receives p (b ∷ bs) later vs r room pos =
      let c =
        cut (content p ++ (b ∷ bs)) later vs (append_assoc (content p) (b ∷ bs) later ∙ r.stream) in
      let (sendable, sendable_left) =
        All-split (IsSendable wire_size) c.done c.left (rw c.joined r.sendable) in
      let (short, short_left) =
        All-split (λ v. 11 + length v.payload ≤ longest) c.done c.left (rw c.joined r.short) in
      let size = pending p vs ((b ∷ bs) ++ later) pos r in
      let few = length-frames c.done in
      let (q, pushed, s) =
        push_delivers registry wire_size p b bs c.rest c.done r.valid r.on_packet r.known sendable
          c.before (cut-IsPartial wire_size c.rest later c.left sendable_left c.after c.owes)
          (omega (
            arith,
            few,
            r.small,
            length-content p,
            ap length c.before,
            length-append (content p) (b ∷ bs),
            length-append (frames c.done) c.rest,
          ))
          (omega arith) in
      (
        q,
        pushed,
        record {
          done = c.done;
          left = c.left;
          joined = c.joined;
          streamed = rw s.left s;
          receives = record {
            valid = s.valid;
            on_packet = s.on_packet ∙ r.on_packet;
            known = λ n. lookup-same registry wire_size p q n s.lookup ∙ r.known n;
            sendable = sendable_left;
            short = short_left;
            stream = ap (λ l. l ++ later) s.left ∙ c.after;
            owes = rw s.left c.owes;
            small = omega (arith, s.capacity, r.small);
          };
        },
      )

  -- Behind the last bytes there are no packets left.
  pub none_left : (p : StreamParser) (vs : List PacketView) → Receives p vs [] → vs ≡ []
  none_left p [] r = refl
  none_left p (v ∷ vs) r = absurd (
      omega (
        arith,
        r.owes,
        ap length r.stream,
        length-append (content p) [],
        length-append (frame v.header v.payload) (frames vs),
        length-frame v.header v.payload,
      ))

  pub all_done : (p : StreamParser) (vs : List PacketView) → Receives p vs [] → Streamed p p vs []
  all_done p vs r =
      let none_is = none_left p vs r in
      let empty : content p ≡ [] = sym (append-nil (content p)) ∙ r.stream ∙ ap frames none_is in
      subst (λ ws. Streamed p p ws []) (sym none_is)
        (subst (Streamed p p []) empty (Streamed-self p r.valid))

  -- However the bytes of a sequence of packets are cut into pieces, pushing the pieces one after the
  -- other hands every packet to the callback, in order, and leaves nothing in the ring: where the ring
  -- takes a piece besides a part of the longest packet, and is smaller than 11264 bytes.
  pub push_all_delivers :
      (cs : List Bytes) (p : StreamParser) (vs : List PacketView)
      → Receives p vs (concat cs)
      → 0 < longest
      → All (λ c. longest + length c ≤ length p.buffer) cs
      → (q : StreamParser) × (push_all registry p cs ≡ some q) × Streamed p q vs []
  push_all_delivers [] p vs r pos room = (p, refl, all_done p vs r)
  push_all_delivers (c ∷ cs) p vs r pos room =
      let (q, pushed, s) = push-Receives p c (concat cs) vs r room.0 pos in
      let (z, all, t) =
        push_all_delivers cs q s.left s.receives pos (rw s.streamed.capacity room.1) in
      (
        z,
        push_all_cons registry p q c cs pushed ∙ all,
        subst (λ ws. Streamed p z ws []) s.joined (Streamed-trans s.streamed t),
      )
