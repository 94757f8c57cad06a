-- ===== src/Tests/Datagrams.antt =====
-- A datagram adapter that is locked, hears a handshake, and gets data then.
use bcnp.Base.{ℕ, ◌≡◌, ◌⊎◌, refl, ap, arith, true, Option, none, some, List, [], ◌∷◌, ◌++◌, length}
use bcnp.Wire.{Bytes, load_u32}
use bcnp.Handshake.{validate_handshake, bytes_equal, encode_handshake}
use bcnp.Udp.{
  UdpPosixAdapter, SockAddr, Receiving, Opening, new_adapter, set_target, set_peer_lock_mode,
  set_pairing_token, send_bytes, send_handshake, process_pairing_packet, accept, receive_chunk,
}
use bcnp.Udp.Pairing.{Call, receive, token, lock_mode, run, heard, Among, IsPaired, is_pairing}
use bcnp.Udp.History.{run-IsPaired}
use bcnp.Udp.Locked.{opened-IsPaired, locked_receives_paired, locked_sends_paired}
use bcnp.Udp.Timeout.{PairedWith, peer_replaced}
use bcnp.Udp.Token.{with_token, retoken_all, token_ignored}

abbrev robot : SockAddr
robot = record { addr = 7; port = 5801 }

abbrev stranger : SockAddr
stranger = record { addr = 8; port = 5801 }

abbrev pub hello : Bytes
hello = b'B' ∷ b'C' ∷ b'N' ∷ b'P' ∷ 0x56 ∷ 0x67 ∷ 0xF8 ∷ 0x81 ∷ []

abbrev from : SockAddr → Bytes → ℕ → Receiving
from src data_ now = record { now = now; datagram = some (data_, src); handshake_sent = some 8 }

abbrev opening : Opening
opening = record { socket_ok = true; fcntl_ok = true; bind_ok = true }

abbrev no_text : ℕ → Option ℕ
no_text text = none

abbrev pairing_calls : List Call
pairing_calls = lock_mode true ∷ token 5 ∷ receive 64 (from robot hello 1000) ∷ []

abbrev paired : UdpPosixAdapter
paired = run (new_adapter no_text opening 5800 none 0) pairing_calls

paired_is_locked :
    (paired.peer_locked ≡ true)
    × (paired.socket ≡ true)
    × (paired.has_peer ≡ true)
    × (paired.initial_peer ≡ robot)
    × (paired.last_peer_rx ≡ 1000)
unfolding new_adapter set_target set_peer_lock_mode set_pairing_token receive_chunk accept
    process_pairing_packet send_handshake encode_handshake bytes_equal load_u32
paired_is_locked = (refl, refl, refl, refl, refl)

passes_data : (receive_chunk 64 (from robot (1 ∷ 2 ∷ []) 2000) paired).0 ≡ 1 ∷ 2 ∷ []
unfolding new_adapter set_target set_peer_lock_mode set_pairing_token receive_chunk accept
    process_pairing_packet send_handshake encode_handshake bytes_equal load_u32
passes_data = refl

paired-IsPaired : IsPaired (robot ∷ []) paired
unfolding bytes_equal load_u32 validate_handshake
paired-IsPaired =
    run-IsPaired pairing_calls [] (new_adapter no_text opening 5800 none 0)
      (opened-IsPaired no_text opening 5800 0 refl refl refl (omega arith))

heard_robot : heard [] pairing_calls ≡ robot ∷ []
unfolding validate_handshake bytes_equal load_u32
heard_robot = refl

locked_receives_paired_example :
    ((receive_chunk 64 (from robot (1 ∷ 2 ∷ []) 2000) paired).0 ≡ 1 ∷ 2 ∷ [])
    × Among robot (heard [] pairing_calls)
locked_receives_paired_example =
    locked_receives_paired no_text opening 5800 0 refl refl refl (omega arith) pairing_calls 64
      (from robot (1 ∷ 2 ∷ []) 2000) (1 ∷ 2 ∷ []) robot paired_is_locked.0 refl
      (omega (arith, ap length passes_data))

locked_sends_paired_example :
    ((send_bytes (some 1) paired (some (9 ∷ []))).1.sent ≡ paired.sent)
    ⊎ (Among paired.last_peer (heard [] pairing_calls)
        × ((send_bytes (some 1) paired (some (9 ∷ []))).1.sent
            ≡ paired.sent ++ ((paired.last_peer, 9 ∷ []) ∷ [])))
locked_sends_paired_example =
    locked_sends_paired no_text opening 5800 0 refl refl refl (omega arith) pairing_calls (some 1)
      (9 ∷ []) paired_is_locked.0

token_ignored_example :
    (run (with_token 3 paired) (retoken_all 3 pairing_calls)
      ≡ with_token 3 (run paired pairing_calls))
    × ((receive_chunk 64
          (from robot hello 2000)
          (run (with_token 3 paired) (retoken_all 3 pairing_calls))).0
        ≡ (receive_chunk 64 (from robot hello 2000) (run paired pairing_calls)).0)
token_ignored_example = token_ignored 3 pairing_calls paired 64 (from robot hello 2000)

is_hello : is_pairing hello ≡ true
unfolding validate_handshake bytes_equal load_u32
is_hello = refl

peer_replaced_example :
    ((receive_chunk 64 (from stranger hello 6000000000) paired).0 ≡ [])
    × PairedWith stranger (receive_chunk 64 (from stranger hello 6000000000) paired).1
    × ((receive_chunk 64 (from stranger hello 6000000000) paired).1.last_peer_rx ≡ 6000000000)
peer_replaced_example =
    peer_replaced (robot ∷ []) 64 (from stranger hello 6000000000) paired paired-IsPaired
      paired_is_locked.1 (omega arith) paired_is_locked.0 paired_is_locked.2 hello stranger refl
      (omega (arith, paired_is_locked.4)) (omega (arith, paired_is_locked.4)) is_hello
