-- ===== src/Tcp/Delivery.antt =====
-- Two adapters that talk to each other: what one is given to send, and what the other passes up.
use bcnp.Base.{
  ℕ, ◌≤◌, ◌==◌, ◌≡◌, refl, sym, ap, ap₂, ◌∙◌, false, not, ◌&&◌, ltb, le→ltb, [], ◌++◌, append_assoc,
  append-nil, if◌then◌else◌, length, take, drop, take-append, take-append_left, drop-append,
  drop-append_left,
}
use bcnp.Base.Words.{IsU32}
use bcnp.Wire.{Bytes, load_u32, u32_bytes}
use bcnp.Handshake.Laws.{handshake_of, read_hash}
use bcnp.Tcp.{TcpPosixAdapter}
use bcnp.Tcp.Ring.Content.{content}
use bcnp.Tcp.Session.{is_handshake_complete}
use bcnp.Tcp.Stream.{queued_bytes, taken_bytes, IsAccounted}
use bcnp.Tcp.Assembly.{heard_bytes, up_bytes}
use bcnp.Tcp.Peer.{expected_of, IsHeard}

pub length-handshake_of : (hash : ℕ) → length (handshake_of hash) ≡ 8
unfolding u32_bytes
length-handshake_of hash = refl

-- The front of one list that stands in front of two.
module _ (h : ℕ) (payload heard rest : Bytes) (e : handshake_of h ++ payload ≡ heard ++ rest)
    (eight : 8 ≤ length heard) where
  rest_is : drop 8 heard ++ rest ≡ payload
  rest_is =
      sym (drop-append_left 8 heard rest eight)
      ∙ ap (drop 8) (sym e)
      ∙ drop-append 8 (handshake_of h) payload (length-handshake_of h)

  front_is : take 8 heard ≡ handshake_of h
  front_is =
      sym (take-append_left 8 heard rest eight)
      ∙ ap (take 8) (sym e)
      ∙ take-append 8 (handshake_of h) payload (length-handshake_of h)

-- If the adapter `a` has queued a handshake with the hash `h` and then `payload` since its ring was
-- last dropped, and the adapter `b` has got, since it last lost its connection, the front of what
-- `send` took from `a`, eight bytes or more: what `b` has passed up, followed by what is on its way and
-- by what waits in the ring of `a`, is `payload`; and the handshake of `b` is complete exactly if `h` is
-- the hash that it expects. Both invariants hold after every history.
pub peers_deliver :
    (n hash h : ℕ) (a b : TcpPosixAdapter) (payload on_way : Bytes)
    → IsAccounted n a
    → IsHeard hash b
    → IsU32 h
    → queued_bytes a.log ≡ handshake_of h ++ payload
    → heard_bytes b.log ++ on_way ≡ taken_bytes a.log
    → 8 ≤ length (heard_bytes b.log)
    → (up_bytes b.log ++ (on_way ++ content a.tx) ≡ payload)
      × (is_handshake_complete b ≡ (h == expected_of hash))
unfolding is_handshake_complete
peers_deliver n hash h a b payload on_way p q u32 queue_is delivered eight =
    let heard = heard_bytes b.log in
    let whole : handshake_of h ++ payload ≡ heard ++ (on_way ++ content a.tx) =
      sym queue_is
      ∙ p.account
      ∙ ap (λ l. l ++ content a.tx) (sym delivered)
      ∙ append_assoc heard on_way (content a.tx) in
    let word : load_u32 (take 8 heard) 4 ≡ h =
      ap (λ l. load_u32 l 4)
        (front_is h payload heard (on_way ++ content a.tx) whole eight
          ∙ sym (append-nil (handshake_of h)))
      ∙ read_hash h [] u32 in
    let there : ltb (length heard) 8 ≡ false = le→ltb (length heard) 8 eight in
    (
      ap (λ l. l ++ (on_way ++ content a.tx)) q.up
          ∙ rest_is h payload heard (on_way ++ content a.tx) whole eight,
      ap₂ (λ x y. x && y) (q.assembled.complete ∙ ap not there)
          (q.assembled.validated
            ∙ ap₂ (λ x w. if x then false else w == expected_of hash) there word),
    )
