-- ===== src/Storage.antt =====
-- The containers of src/bcnp/packet_storage.h and static_vector.h. `Storage` is what the code uses of a
-- container that holds the messages of a packet, `StaticVector` one on top of the vector of crablib.
pub mod Inner
pub mod Vector
pub mod Copying
pub mod Resizing
pub mod Laws
use bcnp.Base.{
  ℕ, ◌+◌, ◌-◌, ◌≤◌, ◌<◌, ◌≡◌, Bool, Option, some, none, List, [], ◌∷◌, ◌++◌, length, get_or, set,
  take, ◌==◌,
}

-- The operations. `push_back` is `none` where it throws, and `get` has no bounds check.
pub record Storage (T : Type 0) : Type 1 where
  pub V : Type 0
  pub fresh : V
  pub size : V → ℕ
  pub empty : V → Bool
  pub get : V → ℕ → T
  pub put : V → ℕ → T → V
  pub push_back : V → T → Option V
  pub pop_back : V → V
  pub clear : V → V

-- What every storage promises: it is a list of at most `capacity` elements.
pub record IsStorage {T : Type 0} (s : Storage T) (blank : T) (capacity : ℕ) : Type 1 where
  pub items : s.V → List T
  pub fresh_items : items s.fresh ≡ []
  pub size_is : (v : s.V) → s.size v ≡ length (items v)
  pub empty_is : (v : s.V) → s.empty v ≡ (length (items v) == 0)
  pub get_is : (v : s.V) (i : ℕ) → i < length (items v) → s.get v i ≡ get_or (items v) i blank
  pub put_is :
      (v : s.V) (i : ℕ) (x : T) → i < length (items v) → items (s.put v i x) ≡ set (items v) i x
  pub push_back_fits :
      (v : s.V) (x : T)
      → length (items v) < capacity
      → (w : s.V) × (s.push_back v x ≡ some w) × (items w ≡ items v ++ (x ∷ []))
  pub push_back_full : (v : s.V) (x : T) → capacity ≤ length (items v) → s.push_back v x ≡ none
  pub pop_back_is : (v : s.V) → items (s.pop_back v) ≡ take (length (items v) - 1) (items v)
  pub clear_is : (v : s.V) → items (s.clear v) ≡ []
