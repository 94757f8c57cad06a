-- ===== src/Storage/Inner.antt =====
-- What `StaticVector` uses of the vector of crablib, and what it relies on.
use bcnp.Base.{
  ℕ, ◌-◌, ◌≤◌, ◌<◌, ◌≡◌, Bool, Option, some, none, List, [], ◌∷◌, ◌++◌, length, get_or, set, take,
  ◌==◌, leb,
}

-- `crab::StaticVector<T, Capacity>`; `try_push_back` is `none` where the result is an error.
pub record Inner (T : Type 0) : Type 1 where
  pub V : Type 0
  pub capacity : ℕ
  pub fresh : V
  pub size : V → ℕ
  pub empty : V → Bool
  pub is_full : V → Bool
  pub unchecked : V → ℕ → T
  pub assign : V → ℕ → T → V
  pub try_push_back : V → T → Option V
  pub pop_back : V → V
  pub clear : V → V

pub record IsInner {T : Type 0} (c : Inner T) (blank : T) : Type 1 where
  pub items : c.V → List T
  pub fresh_items : items c.fresh ≡ []
  pub bounded : (v : c.V) → length (items v) ≤ c.capacity
  pub size_is : (v : c.V) → c.size v ≡ length (items v)
  pub empty_is : (v : c.V) → c.empty v ≡ (length (items v) == 0)
  pub is_full_is : (v : c.V) → c.is_full v ≡ leb c.capacity (length (items v))
  pub unchecked_is :
      (v : c.V) (i : ℕ) → i < length (items v) → c.unchecked v i ≡ get_or (items v) i blank
  pub assign_is :
      (v : c.V) (i : ℕ) (x : T) → i < length (items v) → items (c.assign v i x) ≡ set (items v) i x
  pub try_push_back_fits :
      (v : c.V) (x : T)
      → length (items v) < c.capacity
      → (w : c.V) × (c.try_push_back v x ≡ some w) × (items w ≡ items v ++ (x ∷ []))
  pub try_push_back_full :
      (v : c.V) (x : T) → c.capacity ≤ length (items v) → c.try_push_back v x ≡ none
  pub pop_back_is : (v : c.V) → items (c.pop_back v) ≡ take (length (items v) - 1) (items v)
  pub clear_is : (v : c.V) → items (c.clear v) ≡ []
