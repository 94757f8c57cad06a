-- ===== src/Tcp/Invariant/Starting.antt =====
-- An invariant survives the constructor.
use bcnp.Base.{ℕ, ◌==◌, Bool, true, not, Option, none, some, ltb}
use bcnp.Tcp.{TcpPosixAdapter, Connecting}
use bcnp.Tcp.Connection.{create_base_socket}
use bcnp.Tcp.Session.{blank, open_server, open_client, new_adapter}
use bcnp.Tcp.Invariant.{SocketInvariant}
use bcnp.Base.Choices.{choose, choose_option}
use bcnp.Tcp.Invariant.Connecting.{
  close_socket-kept, create_base_socket-kept, begin_client_connect-kept,
}

module _ (P : TcpPosixAdapter → Type 0) (inv : SocketInvariant P) where
  open_server-kept :
      (io : Connecting) (bind_ok listen_ok : Bool) (a : TcpPosixAdapter)
      → P a
      → P (open_server io bind_ok listen_ok a)
  unfolding open_server
  open_server-kept io bind_ok listen_ok a p =
      let made = create_base_socket io (record a { is_server = true }) in
      let q = create_base_socket-kept P inv io _ (inv.set_up a true _ _ p) in
      let shut = close_socket-kept P inv made.1 q in
      choose P (not made.0) _ _ (λ e. q)
        (λ e.
          choose P (not bind_ok) _ _ (λ f. shut)
            (λ f. choose P (not listen_ok) _ _ (λ g. shut) (λ g. q)))

  open_client-kept {ℓ} :
      {Text : Type ℓ} (inet_pton : Text → Option ℕ) (io : Connecting) (target_ip : Option Text)
      (target_port : ℕ) (a : TcpPosixAdapter)
      → P a
      → P (open_client inet_pton io target_ip target_port a)
  unfolding open_client
  open_client-kept inet_pton io none target_port a p = p
  open_client-kept inet_pton io (some text) target_port a p =
      choose P (target_port == 0) a _ (λ e. p)
        (λ e.
          choose_option P (inet_pton text) a _ (λ f. p)
            (λ ip f.
              begin_client_connect-kept P inv true io _
                (inv.set_up a _ true (record { addr = ip; port = target_port }) p)))

  pub new_adapter-kept {ℓ} :
      {Text : Type ℓ} (inet_pton : Text → Option ℕ) (io : Connecting) (bind_ok listen_ok : Bool)
      (capacity listen_port : ℕ) (target_ip : Option Text) (target_port : ℕ)
      → P (blank capacity)
      → P (new_adapter inet_pton io bind_ok listen_ok capacity listen_port target_ip target_port)
  unfolding new_adapter
  new_adapter-kept inet_pton io bind_ok listen_ok capacity listen_port target_ip target_port p =
      choose P (ltb 0 listen_port) _ _
        (λ e. open_server-kept io bind_ok listen_ok (blank capacity) p)
        (λ e. open_client-kept inet_pton io target_ip target_port (blank capacity) p)
