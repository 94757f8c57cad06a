-- ===== src/Transport.antt =====
-- `ByteWriter`, `ByteStream` and `DuplexAdapter` of transport/adapter.h, of an adapter whose state is
-- of a type `A`.
use bcnp.Base.{ℕ, ◌≤◌, Bool, length}
use bcnp.Wire.{Bytes}

-- `receive_chunk n` gives what it puts into a buffer of `n` bytes.
pub record DuplexAdapter {ℓ} (A : Type ℓ) : Type ℓ where
  pub send_bytes : Bytes → A → Bool × A
  pub receive_chunk : ℕ → A → Bytes × A

-- What every adapter promises: no more bytes than asked for.
pub record IsAdapter {ℓ} {A : Type ℓ} (adapter : DuplexAdapter A) : Type ℓ where
  pub received_fits : (n : ℕ) (a : A) → length (adapter.receive_chunk n a).0 ≤ n
