-- ===== src/Parser/Split.antt =====
-- Where a cut through a stream of packets falls.
use native.Mathlib.Decide.{dec_lt}
use bcnp.Base.{
  ℕ, ◌+◌, ◌*◌, ◌≤◌, ◌<◌, ◌≡◌, refl, sym, ap, ap₂, ◌∙◌, arith, List, [], ◌∷◌, ◌++◌, append_assoc,
  All, length, length-append, length-drop, take, drop, take-append, drop-append, take-append_left,
  drop-append_left, take-append-drop, inl, inr,
}
use bcnp.Wire.{Bytes}
use bcnp.Packet.Types.{PacketView}
use bcnp.Packet.Frame.{frame, length-frame}
use bcnp.Parser.Sendable.{frames, IsSendable, IsPartial}

-- Bytes that do not complete the first of the packets.
abbrev pub Owes : Bytes → List PacketView → Type 0
Owes bytes [] = bytes ≡ []
Owes bytes (v ∷ vs) = length bytes < 11 + length v.payload

-- The packets in front of a cut, the part of a packet at it, and those behind.
pub record Cut (front behind : Bytes) (vs : List PacketView) : Type 0 where
  pub done : List PacketView
  pub left : List PacketView
  pub rest : Bytes
  pub joined : done ++ left ≡ vs
  pub before : front ≡ frames done ++ rest
  pub after : rest ++ behind ≡ frames left
  pub owes : Owes rest left

front_empty : (l m : Bytes) → l ++ m ≡ [] → l ≡ []
front_empty [] m e = refl
front_empty (b ∷ l) m e = absurd (omega (arith, ap length e))

pub cut : (l m : Bytes) (vs : List PacketView) → l ++ m ≡ frames vs → Cut l m vs
cut l m [] e = record {
  done = [];
  left = [];
  rest = l;
  joined = refl;
  before = refl;
  after = e;
  owes = front_empty l m e;
}
cut l m (v ∷ vs) e = elim (dec_lt (length l) (11 + length v.payload)) [
  | yes inside ↦ record {
    done = [];
    left = v ∷ vs;
    rest = l;
    joined = refl;
    before = refl;
    after = e;
    owes = inside;
  }
  | no beyond ↦
      let n = 11 + length v.payload in
      let whole : frame v.header v.payload ≡ take n l =
        sym (take-append n (frame v.header v.payload) (frames vs) (length-frame v.header v.payload))
        ∙ ap (take n) (sym e)
        ∙ take-append_left n l m (omega arith) in
      let later : drop n l ++ m ≡ frames vs =
        sym (drop-append_left n l m (omega arith))
        ∙ ap (drop n) e
        ∙ drop-append n (frame v.header v.payload) (frames vs) (length-frame v.header v.payload) in
      let c = cut (drop n l) m vs later in
      record {
        done = v ∷ c.done;
        left = c.left;
        rest = c.rest;
        joined = ap (λ ws. v ∷ ws) c.joined;
        before =
            sym (take-append-drop n l)
            ∙ ap₂ (λ a b. a ++ b) (sym whole) c.before
            ∙ sym (append_assoc (frame v.header v.payload) (frames c.done) c.rest);
        after = c.after;
        owes = c.owes;
      }
]

-- What is left in front of the cut is part of a packet.
pub cut-IsPartial :
    (wire_size : ℕ → ℕ) (rest m : Bytes) (vs : List PacketView)
    → All (IsSendable wire_size) vs
    → rest ++ m ≡ frames vs
    → Owes rest vs
    → IsPartial wire_size rest
cut-IsPartial wire_size rest m [] s e o = inl (omega (arith, ap length o))
cut-IsPartial wire_size rest m (v ∷ vs) s e o = inr (record {
  view = v;
  missing = drop (length rest) (frame v.header v.payload);
  sendable = s.0;
  missing_pos = omega (
    arith,
    length-drop (length rest) (frame v.header v.payload),
    length-frame v.header v.payload,
  );
  whole =
      ap (λ l. l ++ drop (length rest) (frame v.header v.payload))
        (sym (take-append (length rest) rest m refl)
          ∙ ap (take (length rest)) e
          ∙ take-append_left (length rest) (frame v.header v.payload) (frames vs)
              (omega (arith, length-frame v.header v.payload)))
      ∙ take-append-drop (length rest) (frame v.header v.payload);
})

-- Every packet has eleven bytes at least.
pub length-frames : (vs : List PacketView) → 11 * length vs ≤ length (frames vs)
length-frames [] = omega arith
length-frames (v ∷ vs) = omega (
  arith,
  length-append (frame v.header v.payload) (frames vs),
  length-frame v.header v.payload,
  length-frames vs,
)
