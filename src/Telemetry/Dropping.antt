-- ===== src/Telemetry/Dropping.antt =====
-- The oldest message gives way.
use bcnp.Base.{
  ℕ, zero, suc, ◌+◌, ◌-◌, ◌==◌, ◌<◌, ◌≡◌, refl, sym, ap, ap₂, ◌∙◌, arith, true, false, Bool-cases,
  inl, inr, List, [], ◌∷◌, ◌++◌, append-nil, length, length-set, get_or, set, take, drop, drop-all,
}
use bcnp.Message.{MessageType}
use bcnp.Storage.{Storage, IsStorage}
use bcnp.Telemetry.{shift_loop, drop_oldest}

-- One move to the left, seen from the elements around it.
shift_step :
    {A : Type 0} (xs : List A) (k : ℕ) (d : A)
    → suc k < length xs
    → take (suc k) (set xs k (get_or xs (suc k) d))
        ++ drop (suc (suc k)) (set xs k (get_or xs (suc k) d))
      ≡ take k xs ++ drop (suc k) xs
shift_step [] k d h = absurd (omega arith)
shift_step (x ∷ []) k d h = absurd (omega arith)
shift_step (x ∷ y ∷ xs) zero d h = refl
shift_step (x ∷ y ∷ xs) (suc k) d h = ap (λ l. x ∷ l) (shift_step (y ∷ xs) k d (omega arith))

module _ (t : MessageType) (s : Storage t.Msg) (blank : t.Msg) (capacity : ℕ)
    (law : IsStorage s blank capacity) where
  abbrev pub items : s.V → List t.Msg
  items v = law.items v

  shift_loop_lem :
      (n k : ℕ) (v : s.V)
      → suc k + n ≡ length (items v)
      → (length (items (shift_loop t s n (suc k) v)) ≡ length (items v))
        × (take (length (items v) - 1) (items (shift_loop t s n (suc k) v))
            ≡ take k (items v) ++ drop (suc k) (items v))
  unfolding shift_loop
  shift_loop_lem zero k v e = (
    refl,
    ap (λ n. take n (items v)) (one_less k (length (items v)) e)
        ∙ sym (append-nil (take k (items v)))
        ∙ ap (λ l. take k (items v) ++ l) (sym (drop-all (suc k) (items v) (omega arith))),
  )
    where
      one_less : (j m : ℕ) → suc j + 0 ≡ m → m - 1 ≡ j
      one_less j m h = omega arith
  shift_loop_lem (suc n) k v e =
      let w = s.put v k (s.get v (suc k)) in
      let moved : items w ≡ set (items v) k (get_or (items v) (suc k) blank) =
        law.put_is v k (s.get v (suc k)) (omega arith)
        ∙ ap (set (items v) k) (law.get_is v (suc k) (omega arith)) in
      let len : length (items w) ≡ length (items v) =
        ap length moved ∙ length-set (items v) k (get_or (items v) (suc k) blank) in
      let (kept, rest) = shift_loop_lem n (suc k) w (omega (arith, len)) in
      let next : suc k + 1 ≡ suc (suc k) = omega arith in
      let back : suc k - 1 ≡ k = omega arith in
      let same : shift_loop t s n (suc k + 1) (s.put v (suc k - 1) (s.get v (suc k)))
          ≡ shift_loop t s n (suc (suc k)) w =
        ap₂ (λ i j. shift_loop t s n i (s.put v j (s.get v (suc k)))) next back in
      (
        ap (λ u. length (items u)) same ∙ kept ∙ len,
        ap (λ u. take (length (items v) - 1) (items u)) same
            ∙ ap (λ m. take (m - 1) (items (shift_loop t s n (suc (suc k)) w))) (sym len)
            ∙ rest
            ∙ ap (λ l. take (suc k) l ++ drop (suc (suc k)) l) moved
            ∙ shift_step (items v) k blank (omega arith),
      )

  no_first : (xs : List t.Msg) → (length xs == 0) ≡ true → xs ≡ drop 1 xs
  no_first [] e = refl
  no_first (x ∷ xs) e = absurd (positive_not (length xs) e)
    where
      positive_not : (n : ℕ) → (suc n == 0) ≡ true → ⊥
      positive_not n h = ground arith

  positive : (n : ℕ) → (n == 0) ≡ false → 0 < n
  positive n e = ground arith

  pub drop_oldest_lem : (v : s.V) → items (drop_oldest t s v) ≡ drop 1 (items v)
  unfolding drop_oldest
  drop_oldest_lem v = elim (Bool-cases (s.empty v)) [
    | inl none_there ↦ rw none_there (no_first (items v) (sym (law.empty_is v) ∙ none_there))
    | inr some_there ↦ rw some_there (
        let some_items : 0 < length (items v) =
          positive (length (items v)) (sym (law.empty_is v) ∙ some_there) in
        let (kept, rest) = shift_loop_lem (s.size v - 1) 0 v (omega (arith, law.size_is v)) in
        law.pop_back_is (shift_loop t s (s.size v - 1) 1 v)
        ∙ ap (λ m. take (m - 1) (items (shift_loop t s (s.size v - 1) 1 v))) kept
        ∙ rest)
  ]
