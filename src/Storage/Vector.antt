-- ===== src/Storage/Vector.antt =====
-- `StaticVector` of static_vector.h. An operation that throws `std::out_of_range` is `none`. The
-- overloads for a moved value do the same as those for a copied one.
use bcnp.Base.{
  ℕ, zero, suc, ◌+◌, ◌-◌, Bool, Option, none, some, ◌>>=◌, List, [], ◌∷◌, length, ltb, leb,
  if◌then◌else◌,
}
use bcnp.Storage.Inner.{Inner}

module _ {T : Type 0} (c : Inner T) where
  pub record StaticVector : Type 0 where
    pub inner : c.V

  abbrev pub new_vector : StaticVector
  new_vector = record { inner = c.fresh }

  abbrev pub size : StaticVector → ℕ
  size v = c.size v.inner

  abbrev pub is_empty : StaticVector → Bool
  is_empty v = c.empty v.inner

  abbrev pub is_full : StaticVector → Bool
  is_full v = c.is_full v.inner

  unfoldable pub at : StaticVector → ℕ → Option T
  at v index = if leb (size v) index then none else some (c.unchecked v.inner index)

  unfoldable pub push_back : StaticVector → T → Option StaticVector
  push_back v value = elim (c.try_push_back v.inner value) [
    | none ↦ none
    | some w ↦ some (record { inner = w })
  ]

  -- `value` is what the constructor makes of the arguments.
  abbrev pub emplace_back : StaticVector → T → Option StaticVector
  emplace_back v value = elim (c.try_push_back v.inner value) [
    | none ↦ none
    | some w ↦ some (record { inner = w })
  ]

  unfoldable pub pop_back : StaticVector → StaticVector
  pop_back v = record { inner = c.pop_back v.inner }

  unfoldable pub clear : StaticVector → StaticVector
  clear v = record { inner = c.clear v.inner }

  -- The pushes of a list of values one after the other.
  unfoldable pub push_values : StaticVector → List T → Option StaticVector
  push_values v [] = some v
  push_values v (x ∷ xs) = push_back v x >>= λ w. push_values w xs

  unfoldable pub from_list : List T → Option StaticVector
  from_list init =
      let values = push_values new_vector init in
      if ltb c.capacity (length init) then none else values

  -- The loop over the elements of another vector, of which `n` are left, from `i` on.
  unfoldable pub copy_loop : ℕ → ℕ → StaticVector → StaticVector → Option StaticVector
  copy_loop zero i other v = some v
  copy_loop (suc n) i other v =
      push_back v (c.unchecked other.inner i) >>= λ w. copy_loop n (i + 1) other w

  unfoldable pub copy : StaticVector → Option StaticVector
  copy other = copy_loop (size other) 0 other new_vector

  -- The assignment to another object; to itself it does nothing.
  unfoldable pub assign : StaticVector → StaticVector → Option StaticVector
  assign v other = copy_loop (size other) 0 other (clear v)

  -- The loop of the move, which ignores the result of a push.
  unfoldable pub move_loop : ℕ → ℕ → StaticVector → StaticVector → StaticVector
  move_loop zero i other v = v
  move_loop (suc n) i other v =
      move_loop n (i + 1) other (elim (c.try_push_back v.inner (c.unchecked other.inner i)) [
        | none ↦ v
        | some w ↦ record { inner = w }
      ])

  -- The new vector, and what is left of the other.
  unfoldable pub move : StaticVector → StaticVector × StaticVector
  move other = (move_loop (size other) 0 other new_vector, clear other)

  -- The move to another object.
  unfoldable pub move_assign : StaticVector → StaticVector → StaticVector × StaticVector
  move_assign v other = (move_loop (size other) 0 other (clear v), clear other)

  -- The two loops of `resize`; `n` rounds are enough for a difference of `n`.
  unfoldable pub shrink_loop : ℕ → ℕ → StaticVector → StaticVector
  shrink_loop zero new_size v = v
  shrink_loop (suc n) new_size v =
      let later = shrink_loop n new_size (pop_back v) in if ltb new_size (size v) then later else v

  unfoldable pub grow_loop : ℕ → ℕ → T → StaticVector → Option StaticVector
  grow_loop zero new_size value v = some v
  grow_loop (suc n) new_size value v =
      let later = push_back v value >>= λ w. grow_loop n new_size value w in
      if ltb (size v) new_size then later else some v

  unfoldable pub resize : StaticVector → ℕ → T → Option StaticVector
  resize v new_size value =
      let shrunk = shrink_loop (size v - new_size) new_size v in
      let grown = grow_loop (new_size - size v) new_size value shrunk in
      if ltb c.capacity new_size then none else grown

  -- The loop of the overload without a value, which ends where a push fails.
  unfoldable pub fill_loop : ℕ → ℕ → T → StaticVector → StaticVector
  fill_loop zero new_size blank v = v
  fill_loop (suc n) new_size blank v =
      if ltb (size v) new_size
      then elim (c.try_push_back v.inner blank) [
        | none ↦ v
        | some w ↦ fill_loop n new_size blank (record { inner = w })
      ]
      else v

  -- `blank` is what the default constructor of `T` makes.
  unfoldable pub resize_default : T → StaticVector → ℕ → Option StaticVector
  resize_default blank v new_size =
      let shrunk = shrink_loop (size v - new_size) new_size v in
      let filled = fill_loop (new_size - size v) new_size blank shrunk in
      if ltb c.capacity new_size then none else some filled

  unfoldable pub reserve : StaticVector → ℕ → Option StaticVector
  reserve v requested = if ltb c.capacity requested then none else some v
