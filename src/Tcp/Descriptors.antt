-- ===== src/Tcp/Descriptors.antt =====
-- The descriptors of the adapter: which of those that it got are open, and that none is left behind.
use bcnp.Base.{
  ℕ, ◌+◌, ◌==◌, ◌≡◌, refl, ap, arith, Bool, Option, none, some, List, [], ◌∷◌, if◌then◌else◌,
}
use bcnp.Tcp.{
  TcpPosixAdapter, Connecting, Event, opened, closed, queued, took, dropped, lost, heard,
}
use bcnp.Tcp.Ring.{send_piece, drop_pending_tx}
use bcnp.Tcp.Connection.{close_socket, close_client}
use bcnp.Tcp.Session.{new_adapter, delete_adapter}
use bcnp.Tcp.Invariant.{Invariant}
use bcnp.Base.Choices.{choose_option}
use bcnp.Tcp.Invariant.Connecting.{close_client-kept}
use bcnp.Tcp.Invariant.Starting.{new_adapter-kept}
use bcnp.Tcp.Calls.{Call, run, run-kept}

-- How often the descriptor `fd` was got.
abbrev pub times_opened : ℕ → List Event → ℕ
times_opened fd [] = 0
times_opened fd (opened g ∷ es) = (if g == fd then 1 else 0) + times_opened fd es
times_opened fd (closed g ∷ es) = times_opened fd es
times_opened fd (queued bytes ∷ es) = times_opened fd es
times_opened fd (took g bytes ∷ es) = times_opened fd es
times_opened fd (dropped ∷ es) = times_opened fd es
times_opened fd (lost ∷ es) = times_opened fd es
times_opened fd (heard got up ∷ es) = times_opened fd es

abbrev pub times_closed : ℕ → List Event → ℕ
times_closed fd [] = 0
times_closed fd (closed g ∷ es) = (if g == fd then 1 else 0) + times_closed fd es
times_closed fd (opened g ∷ es) = times_closed fd es
times_closed fd (queued bytes ∷ es) = times_closed fd es
times_closed fd (took g bytes ∷ es) = times_closed fd es
times_closed fd (dropped ∷ es) = times_closed fd es
times_closed fd (lost ∷ es) = times_closed fd es
times_closed fd (heard got up ∷ es) = times_closed fd es

abbrev pub times_held : ℕ → Option ℕ → ℕ
times_held fd none = 0
times_held fd (some g) = if g == fd then 1 else 0

abbrev pub IsBalanced : ℕ → TcpPosixAdapter → Type 0
IsBalanced fd a =
    times_opened fd a.log
    ≡ times_closed fd a.log + (times_held fd a.socket + times_held fd a.client_socket)

balanced : (fd : ℕ) → Invariant (IsBalanced fd)
unfolding send_piece drop_pending_tx
balanced fd = record {
  link = record {
    sockets = record {
      tuned = λ a c d t u p. p;
      set_up = λ a s v b p. p;
      opened_base = λ a g e p. omega (arith, p, ap (times_held fd) e);
      closed_base = λ a g e p. omega (arith, p, ap (times_held fd) e);
    };
    opened_client = λ a g e p. omega (arith, p, ap (times_held fd) e);
    closed_client = λ a g e p. omega (arith, p, ap (times_held fd) e);
    refused_client = λ a g p. omega (arith, p);
    queued = λ a bytes room p. p;
    taken = λ a g n le p. p;
    dropped = λ a p. p;
    lost = λ a p. p;
    marked = λ a p. p;
  };
  heard_data = λ a got e p. p;
  heard_handshake = λ a got e p. p;
}

close_socket-closes :
    (fd : ℕ) (a : TcpPosixAdapter)
    → IsBalanced fd a
    → times_opened fd (close_socket a).log
      ≡ times_closed fd (close_socket a).log + times_held fd a.client_socket
unfolding close_socket
close_socket-closes fd a p =
    choose_option
      (λ b. times_opened fd b.log ≡ times_closed fd b.log + times_held fd a.client_socket) a.socket
      a (λ g. record a { socket = none; log = closed g ∷ a.log })
      (λ e. omega (arith, p, ap (times_held fd) e)) (λ g e. omega (arith, p, ap (times_held fd) e))

close_client-none : (a : TcpPosixAdapter) → (close_client a).client_socket ≡ none
unfolding close_client
close_client-none a =
    choose_option (λ b. b.client_socket ≡ none) a.client_socket a
      (λ fd. record a { client_socket = none; log = closed fd ∷ a.log }) (λ e. e) (λ fd e. refl)

-- Over every history of an adapter, whatever the system calls answered, every descriptor that it got
-- is closed as often as it was got, but for the one or two that it holds; and the destructor closes
-- these.
pub no_descriptor_left {ℓ} :
    {Text : Type ℓ} (inet_pton : Text → Option ℕ) (io : Connecting) (bind_ok listen_ok : Bool)
    (n listen_port : ℕ) (target_ip : Option Text) (target_port : ℕ) (calls : List Call) (fd : ℕ)
    → let a =
        run
          (new_adapter inet_pton io bind_ok listen_ok n listen_port target_ip target_port)
          calls in
      let d = delete_adapter a in
      (times_opened fd a.log
        ≡ times_closed fd a.log + (times_held fd a.socket + times_held fd a.client_socket))
      × (times_opened fd d.log ≡ times_closed fd d.log)
unfolding delete_adapter
no_descriptor_left inet_pton io bind_ok listen_ok n listen_port target_ip target_port calls fd =
    let a =
      run (new_adapter inet_pton io bind_ok listen_ok n listen_port target_ip target_port) calls in
    let p = run-kept (IsBalanced fd) (balanced fd) _ calls (
      new_adapter-kept (IsBalanced fd) (balanced fd).link.sockets inet_pton io bind_ok listen_ok n
        listen_port target_ip target_port refl) in
    let q =
      close_socket-closes fd (close_client a)
        (close_client-kept (IsBalanced fd) (balanced fd).link a p) in
    (p, omega (arith, q, ap (times_held fd) (close_client-none a)))
