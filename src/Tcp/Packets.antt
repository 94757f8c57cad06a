-- ===== src/Tcp/Packets.antt =====
-- Packets from one adapter through another into the parser.
use bcnp.Base.{
  ℕ, ◌+◌, ◌≤◌, ◌<◌, ◌==◌, ◌≡◌, sym, ap, ◌∙◌, arith, some, List, [], ◌++◌, append-nil, All, length,
  length-append, drop,
}
use mathlib.Core.Path.{subst}
use bcnp.Base.Words.{IsU32}
use bcnp.Message.{MessageInfo}
use bcnp.Handshake.Laws.{handshake_of}
use bcnp.Packet.Types.{PacketView}
use bcnp.Parser.{StreamParser}
use bcnp.Parser.Sendable.{frames}
use bcnp.Parser.Stream.{Streamed}
use bcnp.Parser.Chunks.{Receives, push_all, concat, push_all_delivers}
use bcnp.Tcp.{TcpPosixAdapter}
use bcnp.Tcp.Ring.Content.{content}
use bcnp.Tcp.Session.{is_handshake_complete}
use bcnp.Tcp.Stream.{queued_bytes, taken_bytes, IsAccounted}
use bcnp.Tcp.Assembly.{heard_bytes, up_bytes}
use bcnp.Tcp.Peer.{expected_of, IsHeard, hears}
use bcnp.Tcp.Calls.{Call, run, run-kept}
use bcnp.Tcp.Passing.{times_lost, passed, run_passes}
use bcnp.Tcp.Delivery.{length-handshake_of, peers_deliver}

-- What the sender and the receiver have done: the sender has queued its handshake and the packets, and
-- all of it is taken and has arrived; the receiver has heard nothing before, and loses no connection.
pub record IsSentAll (n hash h : ℕ) (a b : TcpPosixAdapter) (calls : List Call)
    (vs : List PacketView) : Type 0 where
  pub sender : IsAccounted n a
  pub receiver : IsHeard hash b
  pub hash_fits : IsU32 h
  pub queued : queued_bytes a.log ≡ handshake_of h ++ frames vs
  pub drained : content a.tx ≡ []
  pub silent : heard_bytes b.log ≡ []
  pub kept : times_lost (run b calls).log ≡ times_lost b.log
  pub arrived : heard_bytes (run b calls).log ≡ taken_bytes a.log

module _ (n hash h : ℕ) (a b : TcpPosixAdapter) (calls : List Call) (vs : List PacketView)
    (s : IsSentAll n hash h a b calls vs) where
  all_taken : taken_bytes a.log ≡ handshake_of h ++ frames vs
  all_taken =
      sym (append-nil (taken_bytes a.log))
      ∙ ap (λ l. taken_bytes a.log ++ l) (sym s.drained)
      ∙ sym s.sender.account
      ∙ s.queued

  delivered :
      (up_bytes (run b calls).log ++ ([] ++ content a.tx) ≡ frames vs)
      × (is_handshake_complete (run b calls) ≡ (h == expected_of hash))
  delivered =
      peers_deliver n hash h a (run b calls) (frames vs) [] s.sender
        (run-kept (IsHeard hash) (hears hash) b calls s.receiver) s.hash_fits s.queued
        (append-nil (heard_bytes (run b calls).log) ∙ s.arrived)
        (omega (
          arith,
          ap length s.arrived,
          ap length all_taken,
          length-append (handshake_of h) (frames vs),
          length-handshake_of h,
        ))

  passed_all : concat (passed b calls) ≡ frames vs
  passed_all =
      let none_before : up_bytes b.log ≡ [] = s.receiver.up ∙ ap (drop 8) s.silent in
      ap (λ l. l ++ concat (passed b calls)) (sym none_before)
      ∙ sym (run_passes b calls s.kept)
      ∙ sym (append-nil (up_bytes (run b calls).log))
      ∙ ap (λ l. up_bytes (run b calls).log ++ l) (sym s.drained)
      ∙ delivered.0

-- An adapter queues its handshake and the frames of packets and the kernel takes them all; the bytes
-- arrive in order at a peer that has heard nothing yet and loses no connection. However the calls of
-- `ReceiveChunk` of the peer cut them, its parser, whose ring has room for a piece besides a part of the
-- longest packet and is smaller than 11264 bytes, delivers all the packets, in order, when it is pushed what the calls return; and its
-- handshake is complete exactly if the hashes agree.
pub packets_arrive :
    (registry : List MessageInfo) (wire_size : ℕ → ℕ) (longest n hash h : ℕ) (a b : TcpPosixAdapter)
    (calls : List Call) (p : StreamParser) (vs : List PacketView)
    → IsSentAll n hash h a b calls vs
    → Receives registry wire_size longest p vs (frames vs)
    → 0 < longest
    → All (λ c. longest + length c ≤ length p.buffer) (passed b calls)
    → ((q : StreamParser) × (push_all registry p (passed b calls) ≡ some q) × Streamed p q vs [])
      × (is_handshake_complete (run b calls) ≡ (h == expected_of hash))
packets_arrive registry wire_size longest n hash h a b calls p vs s r pos room = (
  push_all_delivers registry wire_size longest (passed b calls) p vs
      (subst (Receives registry wire_size longest p vs) (sym (passed_all n hash h a b calls vs s))
        r)
      pos room,
  (delivered n hash h a b calls vs s).1,
)
