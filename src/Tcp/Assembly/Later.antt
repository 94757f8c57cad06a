-- ===== src/Tcp/Assembly/Later.antt =====
-- The handshake of the peer when it is complete, marked, or forgotten, and what is passed up then.
use bcnp.Base.{
  ℕ, ◌-◌, ◌≤◌, ◌==◌, ◌≡◌, refl, sym, ap, ap₂, ◌∙◌, arith, min, true, false, not, [], ◌++◌,
  if◌then◌else◌, ltb, le→ltb, length, length-append, drop, take-append_left, drop-append_left,
  drop-append_right, drop-min, drop-all,
}
use bcnp.Wire.{Bytes, load_u32}
use bcnp.Handshake.{handshake_size}
use bcnp.Tcp.{Shake}
use bcnp.Tcp.Connection.{forget_shake}
use bcnp.Tcp.Assembly.{IsAssembled, still_short, all_there}

module _ (expected : ℕ) (s : Shake) (g got : Bytes) (p : IsAssembled expected s g) where
  -- Bytes behind a handshake that is complete.
  pub data-IsAssembled : s.complete ≡ true → IsAssembled expected s (g ++ got)
  data-IsAssembled done =
      let eight : handshake_size ≤ length g = ground (arith, p.complete, done) in
      let front = take-append_left handshake_size g got eight in
      let still : ltb (length (g ++ got)) handshake_size ≡ ltb (length g) handshake_size =
        le→ltb _ _ (omega (arith, eight, length-append g got)) ∙ sym (le→ltb _ _ eight) in
      record {
        size = p.size;
        received = omega (arith, p.received, eight, length-append g got);
        collected = p.collected ∙ sym front;
        complete = p.complete ∙ ap not (sym still);
        remote = p.remote ∙ ap₂ (λ b l. if b then 0 else load_u32 l 4) (sym still) (sym front);
        validated =
            p.validated
            ∙ ap₂ (λ b l. if b then false else load_u32 l 4 == expected) (sym still) (sym front);
      }

  pub marked-IsAssembled : IsAssembled expected (record s { sent = true }) g
  marked-IsAssembled = record {
    size = p.size;
    received = p.received;
    collected = p.collected;
    complete = p.complete;
    remote = p.remote;
    validated = p.validated;
  }

  pub forgotten-IsAssembled : IsAssembled expected (forget_shake s) []
  unfolding forget_shake
  forgotten-IsAssembled = record {
    size = p.size;
    received = omega arith;
    collected = refl;
    complete = refl;
    remote = refl;
    validated = refl;
  }

  -- What is passed up of the bytes behind those that came before.
  pub up_data : s.complete ≡ true → drop handshake_size g ++ got ≡ drop handshake_size (g ++ got)
  up_data done = sym (drop-append_left handshake_size g got (ground (arith, p.complete, done)))

  pub up_handshake :
      s.complete ≡ false
      → drop handshake_size g ++ drop (min (length got) (handshake_size - s.received)) got
        ≡ drop handshake_size (g ++ got)
  up_handshake open_ =
      let short = still_short expected s g got open_ p in
      ap (λ l. l ++ drop (min (length got) (handshake_size - s.received)) got)
        (drop-all handshake_size g (omega (arith, short)))
      ∙ drop-min (handshake_size - s.received) got
      ∙ ap (λ k. drop (handshake_size - k) got) (all_there expected s g got open_ p)
      ∙ sym (drop-append_right handshake_size g got (omega (arith, short)))
