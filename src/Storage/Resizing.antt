-- ===== src/Storage/Resizing.antt =====
-- The size of a vector, and the checked access.
use native.Mathlib.Decide.{dec_lt}
use bcnp.Base.{
  ℕ, zero, suc, ◌+◌, ◌-◌, ◌≤◌, ◌<◌, ◌≡◌, refl, sym, ap, ◌∙◌, arith, none, some, ◌>>=◌, [], ◌∷◌,
  ◌++◌, append_assoc, append-nil, length, length-append, length-take, get_or, take, take-all,
  take-take, replicate, lt→ltb, le→ltb, ltb, true, false, some_injective, Bool-cases, Option-cases,
  inl, inr, Option,
}
use bcnp.Storage.Inner.{Inner, IsInner}
use bcnp.Storage.Vector.{
  StaticVector, push_back, fill_loop, resize_default, size, at, pop_back, shrink_loop, grow_loop,
  resize,
}
use bcnp.Storage.Copying.{push_back_fits, none_is}

module _ {T : Type 0} (c : Inner T) (blank : T) (law : IsInner c blank) where
  shrink_loop_lem :
      (n k : ℕ) (v : StaticVector c)
      → length (law.items v.inner) ≤ k + n
      → law.items (shrink_loop c n k v).inner ≡ take k (law.items v.inner)
  unfolding shrink_loop pop_back
  shrink_loop_lem zero k v h = sym (take-all k (law.items v.inner) (omega arith))
  shrink_loop_lem (suc n) k v h = elim (dec_lt k (length (law.items v.inner))) [
    | yes more ↦ rw (lt→ltb k (size c v) (omega (arith, law.size_is v.inner))) (
        shrink_loop_lem n k (pop_back c v) (
          omega (
            arith,
            ap length (law.pop_back_is v.inner),
            length-take (length (law.items v.inner) - 1) (law.items v.inner),
          ))
        ∙ ap (take k) (law.pop_back_is v.inner)
        ∙ take-take k (length (law.items v.inner) - 1) (law.items v.inner) (omega arith))
    | no less ↦
        rw (le→ltb k (size c v) (omega (arith, law.size_is v.inner)))
          (sym (take-all k (law.items v.inner) (omega arith)))
  ]

  grow_loop_lem :
      (n k : ℕ) (x : T) (v : StaticVector c)
      → k ≤ c.capacity
      → k ≤ length (law.items v.inner) + n
      → (w : StaticVector c) × (grow_loop c n k x v ≡ some w)
        × (law.items w.inner ≡ law.items v.inner ++ replicate (k - length (law.items v.inner)) x)
  unfolding grow_loop
  grow_loop_lem zero k x v fits h = (
    v,
    refl,
    sym (append-nil (law.items v.inner))
        ∙ ap (λ m. law.items v.inner ++ replicate m x) (none_more (length (law.items v.inner)) k h),
  )
    where
      none_more : (m j : ℕ) → j ≤ m + 0 → 0 ≡ j - m
      none_more m j h = omega arith
  grow_loop_lem (suc n) k x v fits h = elim (dec_lt (length (law.items v.inner)) k) [
    | yes less ↦
        let (w, pushed, is) = push_back_fits c blank law v x (omega arith) in
        let len : length (law.items w.inner) ≡ length (law.items v.inner) + 1 =
          ap length is ∙ length-append (law.items v.inner) (x ∷ []) in
        let (z, e, j) = grow_loop_lem n k x w fits (omega (arith, len)) in
        let more : suc (k - length (law.items w.inner)) ≡ k - length (law.items v.inner) =
          omega (arith, len) in
        let later : law.items z.inner
            ≡ law.items v.inner ++ replicate (k - length (law.items v.inner)) x =
          j
          ∙ ap (λ l. l ++ replicate (k - length (law.items w.inner)) x) is
          ∙ append_assoc (law.items v.inner) (x ∷ []) (replicate (k - length (law.items w.inner)) x)
          ∙ ap (λ m. law.items v.inner ++ replicate m x) more in
        (
          z,
          rw (lt→ltb (size c v) k (omega (arith, law.size_is v.inner)))
              (ap (λ r. r >>= λ u. grow_loop c n k x u) pushed ∙ e),
          later,
        )
    | no enough ↦
        let none_more : 0 ≡ k - length (law.items v.inner) = omega arith in
        (
          v,
          rw (le→ltb (size c v) k (omega (arith, law.size_is v.inner))) refl,
          sym (append-nil (law.items v.inner))
              ∙ ap (λ m. law.items v.inner ++ replicate m x) none_more,
        )
  ]

  -- The checked access.
  pub at_refines :
      (v : StaticVector c) (i : ℕ)
      → (i < length (law.items v.inner) → at c v i ≡ some (get_or (law.items v.inner) i blank))
        × (length (law.items v.inner) ≤ i → at c v i ≡ none)
  unfolding at
  at_refines v i = (
    λ inside. ground (arith, inside, law.size_is v.inner, law.unchecked_is v.inner i inside),
    λ outside. ground (arith, outside, law.size_is v.inner),
  )

  grow_more :
      (n k : ℕ) (v : StaticVector c)
      → ltb (size c v) k ≡ true
      → grow_loop c (suc n) k blank v ≡ (push_back c v blank >>= λ u. grow_loop c n k blank u)
  unfolding grow_loop
  grow_more n k v less = rw less refl

  grow_enough :
      (n k : ℕ) (v : StaticVector c)
      → ltb (size c v) k ≡ false
      → grow_loop c (suc n) k blank v ≡ some v
  unfolding grow_loop
  grow_enough n k v enough = rw enough refl

  -- Where no push throws, the loops of the two overloads are the same.
  fill_loop-grow_loop :
      (n k : ℕ) (v w : StaticVector c)
      → grow_loop c n k blank v ≡ some w
      → fill_loop c n k blank v ≡ w
  unfolding grow_loop fill_loop push_back
  fill_loop-grow_loop zero k v w e = some_injective e
  fill_loop-grow_loop (suc n) k v w e = elim (Bool-cases (ltb (size c v) k)) [
    | inr enough ↦ rw enough (some_injective (sym (grow_enough n k v enough) ∙ e))
    | inl less ↦ elim (Option-cases (c.try_push_back v.inner blank)) [
      | inl full ↦ absurd (
          none_is c blank law (
            sym (
              grow_more n k v less
              ∙ ap
                  (λ r.
                    (elim r as (λ y. Option (StaticVector c)) [
                      | none ↦ none
                      | some t ↦ some (record { inner = t })
                    ])
                    >>= λ t. grow_loop c n k blank t)
                  full)
            ∙ e))
      | inr (u, pushed) ↦ rw less (
          ap
            (λ r. elim r as (λ y. StaticVector c) [
              | none ↦ v
              | some t ↦ fill_loop c n k blank (record { inner = t })
            ])
            pushed
          ∙ fill_loop-grow_loop n k (record { inner = u }) w
              (sym (
                  grow_more n k v less
                  ∙ ap
                      (λ r.
                        (elim r as (λ y. Option (StaticVector c)) [
                          | none ↦ none
                          | some t ↦ some (record { inner = t })
                        ])
                        >>= λ t. grow_loop c n k blank t)
                      pushed)
                ∙ e))
    ]
  ]

  -- A resize without a value fills up with the default one.
  pub resize_default_refines :
      (v : StaticVector c) (n : ℕ) → resize_default c blank v n ≡ resize c v n blank
  unfolding resize resize_default
  resize_default_refines v n = elim (dec_lt c.capacity n) [
    | yes long ↦ rw (lt→ltb c.capacity n long) refl
    | no fits ↦
        let shrunk = shrink_loop_lem (size c v - n) n v (omega (arith, law.size_is v.inner)) in
        let (w, e, i) =
          grow_loop_lem (n - size c v) n blank (shrink_loop c (size c v - n) n v) (omega arith) (
            omega
              (arith, ap length shrunk, length-take n (law.items v.inner), law.size_is v.inner)) in
        rw (le→ltb c.capacity n (omega arith)) (
          ap some (fill_loop-grow_loop (n - size c v) n (shrink_loop c (size c v - n) n v) w e)
          ∙ sym e)
  ]
