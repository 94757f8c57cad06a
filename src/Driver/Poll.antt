-- ===== src/Driver/Poll.antt =====
-- A poll hands the chunks of the adapter to the dispatcher.
use bcnp.Base.{
  ℕ, zero, suc, ◌+◌, ◌≤◌, ◌<◌, ◌≡◌, refl, ap, ◌∙◌, ◌==◌, Option, none, some, List, [], ◌∷◌, ◌++◌,
  All, length, if◌then◌else◌, Bool-cases, inl, inr,
}
use bcnp.Wire.{Bytes}
use bcnp.Message.{MessageInfo}
use bcnp.Queue.{Time}
use bcnp.Packet.Types.{PacketView}
use bcnp.Parser.Chunks.{Receives, concat}
use bcnp.Dispatcher.{PacketDispatcher, push_bytes}
use bcnp.Dispatcher.Stream.{Step, push_all_bytes, push_all_bytes_steps}
use bcnp.Transport.{DuplexAdapter}
use bcnp.Driver.{DispatcherDriver, rx_scratch_size, poll_loop, poll_once}

module _ {κ} {A : Type κ} (adapter : DuplexAdapter A) where
  -- The chunks that the adapter gives up to the first empty one, at most `n`, and what it is then.
  abbrev pub received : ℕ → A → List Bytes × A
  received zero a = ([], a)
  received (suc n) a =
      let (chunk, b) = adapter.receive_chunk rx_scratch_size a in
      let (later, c) = received n b in if length chunk == 0 then ([], b) else (chunk ∷ later, c)

module _ {ℓ κ} {S : Type ℓ} {A : Type κ} (adapter : DuplexAdapter A) (registry : List MessageInfo)
    (clock : ℕ → Time) where
  abbrev placed : A → Option (PacketDispatcher S) → Option (DispatcherDriver S A)
  placed a none = none
  placed a (some d) = some (record { dispatcher = d; adapter = a })

  carry_on :
      (f : PacketDispatcher S → Option (DispatcherDriver S A))
      (g : PacketDispatcher S → Option (PacketDispatcher S)) (a : A)
      → ((d : PacketDispatcher S) → f d ≡ placed a (g d))
      → (r : Option (PacketDispatcher S))
      → elim r [ none ↦ none | some d ↦ f d ] ≡ placed a (elim r [ none ↦ none | some d ↦ g d ])
  carry_on f g a h none = refl
  carry_on f g a h (some d) = h d

  -- The loop is the pushes of the chunks one after the other.
  poll_loop-push_all_bytes :
      (n : ℕ) (d : DispatcherDriver S A)
      → poll_loop adapter registry clock n d
        ≡ placed
            (received adapter n d.adapter).1
            (push_all_bytes registry clock d.dispatcher (received adapter n d.adapter).0)
  poll_loop-push_all_bytes zero d = refl
  poll_loop-push_all_bytes (suc n) d =
      let (chunk, a) = adapter.receive_chunk 8192 d.adapter in
      elim (Bool-cases (length chunk == 0)) [
        | inl empty ↦ rw empty refl
        | inr some_bytes ↦ rw some_bytes (
            carry_on
              (λ e. poll_loop adapter registry clock n (record { dispatcher = e; adapter = a }))
              (λ e. push_all_bytes registry clock e (received adapter n a).0)
              (received adapter n a).1
              (λ e. poll_loop-push_all_bytes n (record { dispatcher = e; adapter = a }))
              (push_bytes registry clock d.dispatcher (some chunk)))
      ]

  -- Where the chunks that an adapter gives in one poll begin a sequence of packets, cut anywhere, the
  -- poll takes those chunks from the adapter and no more, calls the handlers of the packets that they
  -- complete, in their order, and keeps the part of a packet at the end for the next poll: where the
  -- ring takes a chunk besides a part of the longest packet, and is smaller than 11264 bytes. It takes
  -- ten chunks at most.
  pub poll_once_dispatches :
      (wire_size : ℕ → ℕ) (longest : ℕ) (d : DispatcherDriver S A) (later : Bytes)
      (vs : List PacketView)
      → Receives registry wire_size longest d.dispatcher.parser vs
          (concat (received adapter 10 d.adapter).0 ++ later)
      → 0 < longest
      → All
          (λ c. longest + length c ≤ length d.dispatcher.parser.buffer)
          (received adapter 10 d.adapter).0
      → (e : PacketDispatcher S) × (poll_once adapter registry clock d
          ≡ some (record { dispatcher = e; adapter = (received adapter 10 d.adapter).1 }))
        × Step registry clock wire_size longest d.dispatcher e vs later
  unfolding poll_once
  poll_once_dispatches wire_size longest d later vs r pos room =
      let (e, pushed, s) =
        push_all_bytes_steps registry clock wire_size longest (received adapter 10 d.adapter).0
          later d.dispatcher vs r pos room in
      (e, poll_loop-push_all_bytes 10 d ∙ ap (placed (received adapter 10 d.adapter).1) pushed, s)
