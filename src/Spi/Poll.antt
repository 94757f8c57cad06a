-- ===== src/Spi/Poll.antt =====
-- A poll of the bus ends when the bus runs dry, and has delivered the packets by then.
use bcnp.Base.{
  ◌==◌, false, ℕ, zero, suc, ◌+◌, ◌≤◌, ◌<◌, ◌≡◌, sym, ap, ◌∙◌, arith, some_injective, Option-cases,
  inl, inr, Option, none, some, List, [], ◌∷◌, All, length,
}
use bcnp.Wire.{Bytes}
use bcnp.Message.{MessageInfo}
use bcnp.Packet.Types.{PacketView}
use bcnp.Parser.{StreamParser}
use bcnp.Parser.Loop.{push}
use bcnp.Parser.Stream.{Streamed}
use bcnp.Parser.Chunks.{Receives, concat, push_all, push_all_cons, push_all-none, push_all_delivers}
use bcnp.Spi.{SpiStreamAdapter, poll_loop, poll, push_chunk}

some_length : (n : ℕ) → (suc n == 0) ≡ false
some_length n = ground arith

none_is : {q : StreamParser} → ◌≡◌ {A = Option StreamParser} none (some q) → ⊥
none_is e = cc

module _ {ℓ} {A : Type ℓ} where
  -- The bus gives these chunks, and then none.
  abbrev pub Gives : (ℕ → A → Bytes × A) → A → List Bytes → A → Type ℓ
  Gives receive a [] last = receive 256 a ≡ ([], last)
  Gives receive a (c ∷ cs) last =
      (b : A) × (receive 256 a ≡ (c, b)) × (0 < length c) × Gives receive b cs last

  module _ (registry : List MessageInfo) (receive : ℕ → A → Bytes × A) where
    poll_loop-push_all :
        (rounds : ℕ) (s : SpiStreamAdapter A) (cs : List Bytes) (last : A) (q : StreamParser)
        → Gives receive s.bus cs last
        → length cs < rounds
        → push_all registry s.parser cs ≡ some q
        → poll_loop registry receive rounds s ≡ some (record s { bus = last; parser = q })
    unfolding push_chunk
    poll_loop-push_all zero s cs last q g enough e = absurd (omega arith)
    poll_loop-push_all (suc rounds) s [] last q g enough e =
        rw g (ap (λ p. some (record s { bus = last; parser = p })) (some_injective e))
    poll_loop-push_all (suc rounds) s ([] ∷ cs) last q (b, h, some_bytes, g) enough e =
        absurd (omega arith)
    poll_loop-push_all (suc rounds) s ((x ∷ xs) ∷ cs) last q (b, h, some_bytes, g) enough e = rw h (
        rw (some_length (length xs)) (elim (Option-cases (push registry s.parser (some (x ∷ xs)))) [
          | inl stuck ↦
              absurd (none_is (sym (push_all-none registry s.parser (x ∷ xs) cs stuck) ∙ e))
          | inr (p, pushed) ↦ rw pushed (
              rw h (
                poll_loop-push_all rounds (record s { bus = b; parser = p }) cs last q g
                  (omega arith) (sym (push_all_cons registry s.parser p (x ∷ xs) cs pushed) ∙ e)))
        ]))

  -- Where the bus gives chunks that hold packets, cut anywhere, and then nothing, a poll ends, has
  -- handed every packet to the callback, in order, and has taken all the chunks: where the ring takes a
  -- chunk besides a part of the longest packet, and is smaller than 11264 bytes. One round for each
  -- chunk, and one more, are enough.
  pub poll_delivers :
      (registry : List MessageInfo) (receive : ℕ → A → Bytes × A) (wire_size : ℕ → ℕ)
      (longest rounds : ℕ) (s : SpiStreamAdapter A) (cs : List Bytes) (last : A)
      (vs : List PacketView)
      → s.receive ≡ some receive
      → Gives receive s.bus cs last
      → length cs < rounds
      → Receives registry wire_size longest s.parser vs (concat cs)
      → 0 < longest
      → All (λ c. longest + length c ≤ length s.parser.buffer) cs
      → (q : StreamParser) × (poll registry rounds s ≡ some (record s { bus = last; parser = q }))
        × Streamed s.parser q vs []
  unfolding poll
  poll_delivers registry receive wire_size longest rounds s cs last vs er g enough r pos room =
      let (q, all, d) = push_all_delivers registry wire_size longest cs s.parser vs r pos room in
      (
        q,
        ap (λ r. elim r [ none ↦ some s | some f ↦ poll_loop registry f rounds s ]) er
            ∙ poll_loop-push_all registry receive rounds s cs last q g enough all,
        d,
      )
