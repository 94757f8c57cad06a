-- ===== src/Tcp/Zombie.antt =====
-- What a silent client leaves to the next one.
use bcnp.Base.{
  ℕ, ◌==◌, ◌<◌, arith, ◌≡◌, refl, ap, ap₂, ◌∙◌, true, false, not, ◌||◌, Option, none, some, [], ◌∷◌,
  if◌then◌else◌, take,
}
use bcnp.Wire.{Bytes}
use bcnp.Tcp.{
  TcpPosixAdapter, closed, opened, SendAnswers, would_block, Polling, accepted, gives, Hearing,
}
use bcnp.Tcp.Connection.{
  is_open, close_client, is_zombie, poll_server, poll_connection, configure_socket, flush_loop,
  try_flush_tx_buffer,
}
use bcnp.Tcp.Session.{target_socket, pass_up, hear, receive_loop, receive_chunk, send_handshake}
use bcnp.Base.Choices.{pick_true, pick_false, pick_some, pick_none}
use bcnp.Tcp.Invariant.Receiving.{pass_up_complete}

-- A server that listens.
pub record IsListening (a : TcpPosixAdapter) : Type 0 where
  pub server : a.is_server ≡ true
  pub listens : is_open a.socket ≡ true

poll_connection-poll_server :
    (io : Polling) (a : TcpPosixAdapter) → IsListening a → poll_connection io a ≡ poll_server io a
unfolding poll_connection
poll_connection-poll_server io a l = pick_true _ _ l.server ∙ pick_false _ _ (ap not l.listens)

-- The timeout closes the client, and leaves the handshake and the ring as they are.
pub zombie_closed :
    (io : Polling) (a : TcpPosixAdapter) (fd : ℕ)
    → IsListening a
    → a.client_socket ≡ some fd
    → is_zombie a io.now ≡ true
    → poll_connection io a ≡ record a {
      client_socket = none;
      is_connected = false;
      last_server_rx = 0;
      log = closed fd ∷ a.log;
    }
unfolding poll_server close_client
zombie_closed io a fd l client silent =
    poll_connection-poll_server io a l
    ∙ pick_some _ _ fd client
    ∙ pick_true _ _ silent
    ∙ ap (λ (b : TcpPosixAdapter). record b { is_connected = false; last_server_rx = 0 })
        (pick_some a (λ g. record a { client_socket = none; log = closed g ∷ a.log }) fd client)

-- A new client of a server that has none.
client_accepted :
    (io : Polling) (a : TcpPosixAdapter) (g t : ℕ)
    → IsListening a
    → a.client_socket ≡ none
    → io.accept ≡ accepted g true true t
    → io.flush ≡ would_block
    → poll_connection io a ≡ record a {
      client_socket = some g;
      is_connected = true;
      last_server_rx = t;
      log = opened g ∷ a.log;
    }
unfolding poll_server configure_socket try_flush_tx_buffer flush_loop
client_accepted io a g t l free answer full =
    poll_connection-poll_server io a l ∙ pick_none _ _ free ∙ rw (answer, full) refl

pub try_flush-would_block :
    (target : Option ℕ) (answers : SendAnswers) (b : TcpPosixAdapter)
    → answers ≡ would_block
    → try_flush_tx_buffer target answers b ≡ b
unfolding try_flush_tx_buffer flush_loop
try_flush-would_block none answers b e = refl
try_flush-would_block (some fd) answers b e = ap (λ w. flush_loop fd w b) e

module _ (n : ℕ) (io : Hearing) (x : ℕ) (xs : Bytes) (b : TcpPosixAdapter) (g : ℕ)
    (server : b.is_server ≡ true) (client : b.client_socket ≡ some g) (up : b.is_connected ≡ true)
    (said : b.shake.sent ≡ true) (full : io.flush ≡ would_block)
    (waits : io.recv ≡ gives x xs) where
  -- A server with a client, whose own handshake is sent, hears the client.
  receive_chunk-pass_up :
      (a : TcpPosixAdapter)
      → is_open a.socket ≡ true
      → poll_connection io.poll a ≡ b
      → n == 0 ≡ false
      → receive_chunk n io a
        ≡ pass_up io.reply (take n (x ∷ xs)) (record b { last_server_rx = io.now })
  unfolding receive_chunk receive_loop hear
  receive_chunk-pass_up a listens polled some_room =
      pick_false _ _ (ap₂ (λ o z. not o || z) listens some_room) ∙ ap rest polled ∙ heard_it
    where
      kept : TcpPosixAdapter → TcpPosixAdapter
      kept c = if not c.shake.sent then (send_handshake io.handshake c).1 else c

      rest : TcpPosixAdapter → Bytes × TcpPosixAdapter
      rest c =
          if not (is_open (target_socket c)) || not c.is_connected
          then ([], c)
          else receive_loop n io io.recv (kept (try_flush_tx_buffer (target_socket c) io.flush c))

      heard_it : rest b ≡ pass_up io.reply (take n (x ∷ xs)) (record b { last_server_rx = io.now })
      heard_it =
          pick_false _ _ (ap₂ (λ o c. not (is_open o) || not c) (pick_true _ _ server ∙ client) up)
          ∙ ap (λ c. receive_loop n io io.recv (kept c))
              (try_flush-would_block (target_socket b) io.flush b full)
          ∙ ap (receive_loop n io io.recv) (pick_false _ _ (ap not said))
          ∙ ap (λ r. receive_loop n io r b) waits
          ∙ ap (pass_up io.reply (take n (x ∷ xs))) (pick_true _ _ server)

-- If a server times its client out when the handshake is complete and the own one is sent, and then
-- accepts a client in a call in which the kernel takes nothing from the ring and that client's first
-- bytes wait: these bytes, as many as the buffer takes, are passed up, the handshake of the client with
-- them, and the handshake is as the old client left it.
pub zombie_leaves_handshake :
    (n fd g t : ℕ) (io : Polling) (next : Hearing) (x : ℕ) (xs : Bytes) (a : TcpPosixAdapter)
    → IsListening a
    → a.client_socket ≡ some fd
    → is_zombie a io.now ≡ true
    → a.shake.complete ≡ true
    → a.shake.sent ≡ true
    → next.poll.accept ≡ accepted g true true t
    → next.poll.flush ≡ would_block
    → next.flush ≡ would_block
    → next.recv ≡ gives x xs
    → 0 < n
    → let (up, b) = receive_chunk n next (poll_connection io a) in
      (up ≡ take n (x ∷ xs)) × (b.shake ≡ a.shake) × (b.client_socket ≡ some g)
zombie_leaves_handshake n fd g t io next x xs a l client silent done said answer full idle waits
      some_room =
    let b : TcpPosixAdapter = record a {
      client_socket = none;
      is_connected = false;
      last_server_rx = 0;
      log = closed fd ∷ a.log;
    } in
    let c : TcpPosixAdapter = record b {
      client_socket = some g;
      is_connected = true;
      last_server_rx = t;
      log = opened g ∷ b.log;
    } in
    let polled =
      client_accepted next.poll b g t (record { server = l.server; listens = l.listens }) refl
        answer full in
    let passed =
      ap (receive_chunk n next) (zombie_closed io a fd l client silent)
      ∙ receive_chunk-pass_up n next x xs c g l.server refl refl said idle waits b l.listens polled
          (ground arith)
      ∙ pass_up_complete next.reply (take n (x ∷ xs)) (record c { last_server_rx = next.now })
          done in
    (ap (λ r. r.0) passed, ap (λ r. r.1.shake) passed, ap (λ r. r.1.client_socket) passed)
