-- ===== src/Tcp/Assembly.antt =====
-- The handshake of the peer, put together from the pieces that `recv` gives.
pub mod Later
use bcnp.Base.{
  ℕ, zero, suc, ◌+◌, ◌-◌, ◌≤◌, ◌<◌, ◌==◌, ◌/=◌, ◌≡◌, refl, sym, ap, ap₂, ◌∙◌, arith, min, Bool,
  true, false, not, ◌&&◌, Option, List, [], ◌∷◌, ◌++◌, append_assoc, if◌then◌else◌, ltb, lt→ltb,
  ltb→le, length, length-take, length-drop, length-append, take, drop, take-min, drop-min,
  take-append_right, drop-append_right, take-write_at, take-all, drop-all, take-take, take-append,
  take-append_left, drop-append_left, drop-drop, take-append-drop, write_at, write_at-append,
  length-write_at, replicate, Bool-cases, inl, inr,
}
use bcnp.Wire.{Bytes, load_u32}
use bcnp.Handshake.{handshake_size, schema_hash, extract_schema_hash}
use bcnp.Tcp.{TcpPosixAdapter, Shake, Event, opened, closed, queued, took, dropped, lost, heard}
use bcnp.Tcp.Session.{assemble}
use bcnp.Base.Choices.{choose}

-- What `recv` gave since the last connection loss.
abbrev pub heard_bytes : List Event → Bytes
heard_bytes [] = []
heard_bytes (heard got up ∷ es) = heard_bytes es ++ got
heard_bytes (lost ∷ es) = []
heard_bytes (opened fd ∷ es) = heard_bytes es
heard_bytes (closed fd ∷ es) = heard_bytes es
heard_bytes (queued bytes ∷ es) = heard_bytes es
heard_bytes (took fd bytes ∷ es) = heard_bytes es
heard_bytes (dropped ∷ es) = heard_bytes es

-- What was passed up since the last connection loss.
abbrev pub up_bytes : List Event → Bytes
up_bytes [] = []
up_bytes (heard got up ∷ es) = up_bytes es ++ up
up_bytes (lost ∷ es) = []
up_bytes (opened fd ∷ es) = up_bytes es
up_bytes (closed fd ∷ es) = up_bytes es
up_bytes (queued bytes ∷ es) = up_bytes es
up_bytes (took fd bytes ∷ es) = up_bytes es
up_bytes (dropped ∷ es) = up_bytes es

-- What the handshake is when the peer has sent `g`.
pub record IsAssembled (expected : ℕ) (s : Shake) (g : Bytes) : Type 0 where
  pub size : length s.bytes ≡ handshake_size
  pub received : s.received ≡ min (length g) handshake_size
  pub collected : take s.received s.bytes ≡ take handshake_size g
  pub complete : s.complete ≡ not (ltb (length g) handshake_size)
  pub remote :
      s.remote_schema_hash
      ≡ (if ltb (length g) handshake_size then 0 else load_u32 (take handshake_size g) 4)
  pub validated : s.validated ≡ (
      if ltb (length g) handshake_size
      then false
      else load_u32 (take handshake_size g) 4 == expected)

module _ (expected : ℕ) (s : Shake) (g got : Bytes) (open_ : s.complete ≡ false)
    (p : IsAssembled expected s g) where
  pub still_short : length g < handshake_size
  still_short = ground (arith, p.complete)

  pub all_there : s.received ≡ length g
  all_there = omega (arith, p.received, still_short)

  -- The bytes that belong to the handshake.
  abbrev piece : Bytes
  piece = take (min (length got) (handshake_size - s.received)) got

  abbrev to_read : ℕ
  to_read = min (length piece) (handshake_size - s.received)

  length-piece : to_read ≡ length piece
  length-piece = omega (arith, length-take (min (length got) (handshake_size - s.received)) got)

  piece_is : piece ≡ take (handshake_size - length g) got
  piece_is =
      take-min (handshake_size - s.received) got ∙ ap (λ k. take (handshake_size - k) got) all_there

  abbrev written : Bytes
  written = write_at s.bytes s.received (take to_read piece)

  received_is : s.received + to_read ≡ min (length (g ++ got)) handshake_size
  received_is = omega (
    arith,
    all_there,
    still_short,
    length-append g got,
    length-take (min (length got) (handshake_size - s.received)) got,
  )

  written_is : take (s.received + to_read) written ≡ take handshake_size (g ++ got)
  written_is =
      let whole : take to_read piece ≡ piece =
        take-all to_read piece (omega (arith, length-piece)) in
      ap (λ l. take (s.received + to_read) (write_at s.bytes s.received l)) whole
      ∙ ap (λ k. take (s.received + k) (write_at s.bytes s.received piece)) length-piece
      ∙ take-write_at s.bytes s.received piece (omega (arith, p.size, length-piece, received_is))
      ∙ ap₂ ◌++◌ (p.collected ∙ take-all handshake_size g (omega (arith, still_short))) piece_is
      ∙ sym (take-append_right handshake_size g got (omega (arith, still_short)))

  size_is : length written ≡ handshake_size
  size_is = length-write_at s.bytes s.received (take to_read piece) ∙ p.size

  part_is : ltb (s.received + to_read) handshake_size ≡ ltb (length (g ++ got)) handshake_size
  part_is = ground (arith, received_is)

  fresh_remote : s.remote_schema_hash ≡ 0
  fresh_remote =
      p.remote
      ∙ ap (λ b. if b then 0 else load_u32 (take handshake_size g) 4)
          (lt→ltb (length g) handshake_size still_short)

  fresh_validated : s.validated ≡ false
  fresh_validated =
      p.validated
      ∙ ap (λ b. if b then false else load_u32 (take handshake_size g) 4 == expected)
          (lt→ltb (length g) handshake_size still_short)

  -- A full buffer holds the front of what the peer sent.
  whole_is :
      ltb (s.received + to_read) handshake_size ≡ false → written ≡ take handshake_size (g ++ got)
  whole_is whole =
      let full : s.received + to_read ≡ handshake_size =
        omega (arith, received_is, ltb→le (s.received + to_read) handshake_size whole) in
      sym (take-all (s.received + to_read) written (omega (arith, full, size_is))) ∙ written_is

  -- The bytes that `recv` gave, put to those that are there.
  pub assemble-IsAssembled : IsAssembled expected (assemble expected piece s) (g ++ got)
  unfolding assemble extract_schema_hash
  assemble-IsAssembled =
      let t = record s { bytes = written; received = s.received + to_read } in
      choose (λ r. IsAssembled expected r (g ++ got)) (ltb (s.received + to_read) handshake_size) t
        _
        (λ part.
          let short = sym part_is ∙ part in
          record {
            size = size_is;
            received = received_is;
            collected = written_is;
            complete = open_ ∙ ap not (sym short);
            remote = rw short fresh_remote;
            validated = rw short fresh_validated;
          })
        (λ whole.
          let long = sym part_is ∙ whole in
          let same_hash = ap (λ l. load_u32 l 4) (whole_is whole) in
          choose (λ r. IsAssembled expected r (g ++ got)) (load_u32 written 4 /= expected) _ _
            (λ other. record {
              size = size_is;
              received = received_is;
              collected = written_is;
              complete = ap not (sym long);
              remote = rw long same_hash;
              validated = rw long (ground (arith, other, same_hash));
            })
            (λ own. record {
              size = size_is;
              received = received_is;
              collected = written_is;
              complete = ap not (sym long);
              remote = rw long same_hash;
              validated = rw long (ground (arith, own, same_hash));
            }))
