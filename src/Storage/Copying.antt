-- ===== src/Storage/Copying.antt =====
-- Filling, copying and moving a `StaticVector`.
use bcnp.Base.{
  some_injective, Option-cases, ℕ, zero, suc, ◌+◌, ◌≤◌, ◌<◌, ◌≡◌, refl, sym, ap, ap₂, ◌∙◌, arith,
  inl, inr, Option, none, some, ◌>>=◌, List, [], ◌∷◌, ◌++◌, append_assoc, append-nil, length,
  length-append, length-take, take, take-all, take-add_one, lt→ltb, le→ltb,
}
use bcnp.Storage.Inner.{Inner, IsInner}
use bcnp.Storage.Vector.{
  StaticVector, new_vector, size, push_back, clear, push_values, from_list, copy_loop, copy, assign,
  move_loop, move, move_assign,
}

module _ {T : Type 0} (c : Inner T) (blank : T) (law : IsInner c blank) where
  abbrev pub items : StaticVector c → List T
  items v = law.items v.inner

  pub push_back_fits :
      (v : StaticVector c) (x : T)
      → length (items v) < c.capacity
      → (w : StaticVector c) × (push_back c v x ≡ some w) × (items w ≡ items v ++ (x ∷ []))
  unfolding push_back
  push_back_fits v x room =
      let (w, e, i) = law.try_push_back_fits v.inner x room in
      (
        record { inner = w },
        ap (λ r. elim r [ none ↦ none | some u ↦ some (record { inner = u }) ]) e,
        i,
      )

  pub push_back_full :
      (v : StaticVector c) (x : T) → c.capacity ≤ length (items v) → push_back c v x ≡ none
  unfolding push_back
  push_back_full v x full =
      ap (λ r. elim r [ none ↦ none | some u ↦ some (record { inner = u }) ])
        (law.try_push_back_full v.inner x full)

  push_values_lem :
      (xs : List T) (v : StaticVector c)
      → length (items v) + length xs ≤ c.capacity
      → (w : StaticVector c) × (push_values c v xs ≡ some w) × (items w ≡ items v ++ xs)
  unfolding push_values
  push_values_lem [] v room = (v, refl, sym (append-nil (items v)))
  push_values_lem (x ∷ xs) v room =
      let (w, e, i) = push_back_fits v x (omega arith) in
      let (z, f, j) =
        push_values_lem xs w (omega (arith, ap length i, length-append (items v) (x ∷ []))) in
      (
        z,
        ap (λ r. r >>= λ u. push_values c u xs) e ∙ f,
        j ∙ ap (λ l. l ++ xs) i ∙ append_assoc (items v) (x ∷ []) xs,
      )

  -- An initializer list that fits gives its elements, and a longer one throws.
  pub from_list_refines :
      (init : List T)
      → (length init ≤ c.capacity
          → (w : StaticVector c) × (from_list c init ≡ some w) × (items w ≡ init))
        × (c.capacity < length init → from_list c init ≡ none)
  unfolding from_list
  from_list_refines init = (
    λ fits.
        let (w, e, i) =
          push_values_lem init (new_vector c) (omega (arith, fits, ap length law.fresh_items)) in
        (w, rw (le→ltb c.capacity (length init) fits) e, i ∙ ap (λ l. l ++ init) law.fresh_items),
    λ long. rw (lt→ltb c.capacity (length init) long) refl,
  )

  copy_loop_lem :
      (n i : ℕ) (other v : StaticVector c)
      → i + n ≡ length (items other)
      → items v ≡ take i (items other)
      → (w : StaticVector c) × (copy_loop c n i other v ≡ some w) × (items w ≡ items other)
  unfolding copy_loop
  copy_loop_lem zero i other v e so_far = (v, refl, so_far ∙ take-all i (items other) (omega arith))
  copy_loop_lem (suc n) i other v e so_far =
      let x = c.unchecked other.inner i in
      let (w, pushed, is) =
        push_back_fits v x
          (omega (arith, ap length so_far, length-take i (items other), law.bounded other.inner)) in
      let next : items w ≡ take (i + 1) (items other) =
        is
        ∙ ap₂ (λ l y. l ++ (y ∷ [])) so_far (law.unchecked_is other.inner i (omega arith))
        ∙ take-add_one i (items other) blank (omega arith) in
      let (z, f, j) = copy_loop_lem n (i + 1) other w (omega arith) next in
      (z, ap (λ r. r >>= λ u. copy_loop c n (i + 1) other u) pushed ∙ f, j)

  -- A copy, and an assignment from another vector, never throw, and have the same elements.
  pub copy_refines :
      (other v : StaticVector c)
      → ((w : StaticVector c) × (copy c other ≡ some w) × (items w ≡ items other))
        × ((w : StaticVector c) × (assign c v other ≡ some w) × (items w ≡ items other))
  unfolding copy assign clear
  copy_refines other v = (
    copy_loop_lem (size c other) 0 other (new_vector c) (omega (arith, law.size_is other.inner))
        law.fresh_items,
    copy_loop_lem (size c other) 0 other (clear c v) (omega (arith, law.size_is other.inner))
        (law.clear_is v.inner),
  )

  pub none_is : {w : StaticVector c} → ◌≡◌ {A = Option (StaticVector c)} none (some w) → ⊥
  none_is e = cc

  move_loop-copy_loop :
      (n i : ℕ) (other v w : StaticVector c)
      → copy_loop c n i other v ≡ some w
      → move_loop c n i other v ≡ w
  unfolding copy_loop move_loop push_back
  move_loop-copy_loop zero i other v w e = some_injective e
  move_loop-copy_loop (suc n) i other v w e =
      let x = c.unchecked other.inner i in
      elim (Option-cases (c.try_push_back v.inner x)) [
        | inl full ↦ absurd (
            none_is (
              sym (
                ap
                  (λ r.
                    (elim r as (λ y. Option (StaticVector c)) [
                      | none ↦ none
                      | some u ↦ some (record { inner = u })
                    ])
                    >>= λ u. copy_loop c n (i + 1) other u)
                  full)
              ∙ e))
        | inr (u, pushed) ↦
            ap
              (λ r.
                move_loop c n (i + 1) other
                  (elim r as (λ y. StaticVector c) [ none ↦ v | some t ↦ record { inner = t } ]))
              pushed
            ∙ move_loop-copy_loop n (i + 1) other (record { inner = u }) w
                (sym (
                    ap
                      (λ r.
                        (elim r as (λ y. Option (StaticVector c)) [
                          | none ↦ none
                          | some t ↦ some (record { inner = t })
                        ])
                        >>= λ t. copy_loop c n (i + 1) other t)
                      pushed)
                  ∙ e)
      ]

  -- A move, and a move to another object, give the elements, and leave the other vector empty.
  pub move_refines :
      (other v : StaticVector c)
      → ((items (move c other).0 ≡ items other) × (items (move c other).1 ≡ []))
        × ((items (move_assign c v other).0 ≡ items other) × (items (move_assign c v other).1 ≡ []))
  unfolding move move_assign clear copy assign
  move_refines other v =
      let (copied, assigned) = copy_refines other v in
      let emptied = law.clear_is other.inner in
      (
        (
          ap items (move_loop-copy_loop (size c other) 0 other (new_vector c) copied.0 copied.1)
              ∙ copied.2,
          emptied,
        ),
        (
          ap items (move_loop-copy_loop (size c other) 0 other (clear c v) assigned.0 assigned.1)
              ∙ assigned.2,
          emptied,
        ),
      )
