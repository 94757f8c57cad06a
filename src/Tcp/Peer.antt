-- ===== src/Tcp/Peer.antt =====
-- The handshake of the peer over every history of an adapter.
use bcnp.Base.{
  ℕ, ◌-◌, ◌==◌, ◌/=◌, ◌≡◌, refl, sym, ap, ◌∙◌, arith, min, Bool, true, false, not, ◌&&◌, Option,
  List, [], ◌++◌, if◌then◌else◌, ltb, length, take, drop, length-replicate,
}
use bcnp.Wire.{load_u32}
use bcnp.Handshake.{handshake_size, schema_hash}
use bcnp.Tcp.{TcpPosixAdapter, Connecting}
use bcnp.Tcp.Ring.{send_piece, drop_pending_tx}
use bcnp.Tcp.Session.{
  blank, new_adapter, get_expected_schema_hash, set_expected_schema_hash, is_handshake_complete,
}
use bcnp.Tcp.Invariant.{SocketInvariant, Invariant}
use bcnp.Tcp.Invariant.Starting.{new_adapter-kept}
use bcnp.Tcp.Calls.{Call, run, run-kept}
use bcnp.Tcp.Assembly.Later.{
  data-IsAssembled, marked-IsAssembled, forgotten-IsAssembled, up_data, up_handshake,
}
use bcnp.Tcp.Assembly.{heard_bytes, up_bytes, IsAssembled, assemble-IsAssembled}

-- The hash that the peer must send when `SetExpectedSchemaHash` was called with `hash`.
abbrev pub expected_of : ℕ → ℕ
expected_of hash = if hash /= 0 then hash else schema_hash

pub record IsHeard (hash : ℕ) (a : TcpPosixAdapter) : Type 0 where
  pub expected : a.expected_schema_hash ≡ hash
  pub assembled : IsAssembled (expected_of hash) a.shake (heard_bytes a.log)
  pub up : up_bytes a.log ≡ drop handshake_size (heard_bytes a.log)

same :
    (hash : ℕ) (a b : TcpPosixAdapter)
    → b.expected_schema_hash ≡ a.expected_schema_hash
    → IsAssembled (expected_of hash) b.shake (heard_bytes b.log)
    → up_bytes b.log ≡ drop handshake_size (heard_bytes b.log)
    → IsHeard hash a
    → IsHeard hash b
same hash a b e q u p = record { expected = e ∙ p.expected; assembled = q; up = u }

heard_sockets : (hash : ℕ) → SocketInvariant (IsHeard hash)
heard_sockets hash = record {
  tuned = λ a c d t u p. same hash a _ refl p.assembled p.up p;
  set_up = λ a s v b p. same hash a _ refl p.assembled p.up p;
  opened_base = λ a fd e p. same hash a _ refl p.assembled p.up p;
  closed_base = λ a fd e p. same hash a _ refl p.assembled p.up p;
}

expects :
    (hash : ℕ) (a : TcpPosixAdapter)
    → a.expected_schema_hash ≡ hash
    → get_expected_schema_hash a ≡ expected_of hash
unfolding get_expected_schema_hash
expects hash a e = ap expected_of e

pub hears : (hash : ℕ) → Invariant (IsHeard hash)
unfolding send_piece drop_pending_tx
hears hash = record {
  link = record {
    sockets = heard_sockets hash;
    opened_client = λ a fd e p. same hash a _ refl p.assembled p.up p;
    closed_client = λ a fd e p. same hash a _ refl p.assembled p.up p;
    refused_client = λ a fd p. same hash a _ refl p.assembled p.up p;
    queued = λ a bytes room p. same hash a _ refl p.assembled p.up p;
    taken = λ a fd n le p. same hash a _ refl p.assembled p.up p;
    dropped = λ a p. same hash a _ refl p.assembled p.up p;
    lost = λ a p.
        same hash a _ refl
          (forgotten-IsAssembled (expected_of hash) a.shake (heard_bytes a.log) [] p.assembled) refl
          p;
    marked = λ a p.
        same hash a _ refl
          (marked-IsAssembled (expected_of hash) a.shake (heard_bytes a.log) [] p.assembled) p.up p;
  };
  heard_data = λ a got done p.
      let g = heard_bytes a.log in
      same hash a _ refl (data-IsAssembled (expected_of hash) a.shake g got p.assembled done)
        (ap (λ l. l ++ got) p.up ∙ up_data (expected_of hash) a.shake g got p.assembled done) p;
  heard_handshake = λ a got open_ p.
      let g = heard_bytes a.log in
      let n = min (length got) (handshake_size - a.shake.received) in
      same hash a _ refl
        (rw (expects hash a p.expected)
          (assemble-IsAssembled (expected_of hash) a.shake g got open_ p.assembled))
        (ap (λ l. l ++ drop n got) p.up
          ∙ up_handshake (expected_of hash) a.shake g got p.assembled open_)
        p;
}

-- Nothing is heard before the first call.
silent : SocketInvariant (λ a. heard_bytes a.log ≡ [])
silent = record {
  tuned = λ a c d t u p. p;
  set_up = λ a s v b p. p;
  opened_base = λ a fd e p. p;
  closed_base = λ a fd e p. p;
}

pub blank-IsHeard : (n : ℕ) → IsHeard 0 (blank n)
blank-IsHeard n = record {
  expected = refl;
  assembled = record {
    size = length-replicate {A = ℕ} 8 0;
    received = omega arith;
    collected = refl;
    complete = refl;
    remote = refl;
    validated = refl;
  };
  up = refl;
}

-- The hash may be set before a byte is heard.
set_expected-IsHeard :
    (old hash : ℕ) (a : TcpPosixAdapter)
    → heard_bytes a.log ≡ []
    → IsHeard old a
    → IsHeard hash (set_expected_schema_hash a hash)
unfolding set_expected_schema_hash
set_expected-IsHeard old hash a none_yet p =
    let short : ltb (length (heard_bytes a.log)) handshake_size ≡ true =
      ap (λ g. ltb (length g) handshake_size) none_yet in
    let word = load_u32 (take handshake_size (heard_bytes a.log)) 4 in
    record {
      expected = refl;
      assembled = record {
        size = p.assembled.size;
        received = p.assembled.received;
        collected = p.assembled.collected;
        complete = p.assembled.complete;
        remote = p.assembled.remote;
        validated =
            p.assembled.validated
            ∙ ap (λ b. if b then false else word == expected_of old) short
            ∙ ap (λ b. if b then false else word == expected_of hash) (sym short);
      };
      up = p.up;
    }

module _ {ℓ} {Text : Type ℓ} (inet_pton : Text → Option ℕ) (io : Connecting)
    (bind_ok listen_ok : Bool) (n listen_port : ℕ) (target_ip : Option Text) (target_port hash : ℕ)
    (calls : List Call) where
  -- A new adapter that expects `hash`, after the calls.
  abbrev pub called : TcpPosixAdapter
  called =
      run
        (set_expected_schema_hash
          (new_adapter inet_pton io bind_ok listen_ok n listen_port target_ip target_port) hash)
        calls

  pub run-IsHeard : IsHeard hash called
  run-IsHeard = run-kept (IsHeard hash) (hears hash) _ calls (
      set_expected-IsHeard 0 hash
        (new_adapter inet_pton io bind_ok listen_ok n listen_port target_ip target_port)
        (new_adapter-kept (λ a. heard_bytes a.log ≡ []) silent inet_pton io bind_ok listen_ok n
          listen_port target_ip target_port refl)
        (new_adapter-kept (IsHeard 0) (heard_sockets 0) inet_pton io bind_ok listen_ok n listen_port
          target_ip target_port (blank-IsHeard n)))

  -- Over every history of a new adapter that expects `hash` (0 stands for kSchemaHash), however
  -- `recv` cuts what the peer sends: of the bytes that came since the last connection loss the first
  -- eight are kept back and all others are passed up, in order; the handshake is complete when these
  -- eight are there, the hash of the peer is the word in the last four of them, and it is valid
  -- exactly if that is the hash that is expected.
  pub run_hears :
      let g = heard_bytes called.log in
      (up_bytes called.log ≡ drop 8 g)
      × (called.shake.complete ≡ not (ltb (length g) 8))
      × (called.shake.remote_schema_hash ≡ (if ltb (length g) 8 then 0 else load_u32 (take 8 g) 4))
      × (is_handshake_complete called
          ≡ (not (ltb (length g) 8) && (load_u32 (take 8 g) 4 == expected_of hash)))
  unfolding is_handshake_complete
  run_hears =
      let s = run-IsHeard.assembled in
      (run-IsHeard.up, s.complete, s.remote, ground (arith, s.complete, s.validated))
