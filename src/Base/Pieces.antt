-- ===== src/Base/Pieces.antt =====
-- The front and the rest of two lists put together, and of a buffer that is written.
use Prim.Native.Nat.{ℕ, zero, suc, ◌+◌, ◌-◌, ◌≤◌, min}
use mathlib.Core.Path.{◌≡◌, sym, ap, ◌∙◌}
use mathlib.Core.List.{List, [], ◌∷◌, ◌++◌, append_assoc}
use native.Mathlib.Omega.{arith}
use bcnp.Base.Lists.{length, take, drop, length-take, length-drop, length-append, take-append-drop}
use bcnp.Base.Slices.{take-append, write_at, write_at-append}

module _ {ℓ} {A : Type ℓ} where
  pub take-append_right :
      (n : ℕ) (xs ys : List A) → length xs ≤ n → take n (xs ++ ys) ≡ xs ++ take (n - length xs) ys
  take-append_right n [] ys h = ap (λ k. take k ys) (omega arith)
  take-append_right zero (x ∷ xs) ys h = absurd (omega arith)
  take-append_right (suc n) (x ∷ xs) ys h =
      ap (λ l. x ∷ l)
        (take-append_right n xs ys (omega arith)
          ∙ ap (λ k. xs ++ take k ys)
              (let e : n - length xs ≡ suc n - suc (length xs) = omega arith in e))

  pub drop-append_right :
      (n : ℕ) (xs ys : List A) → length xs ≤ n → drop n (xs ++ ys) ≡ drop (n - length xs) ys
  drop-append_right n [] ys h = ap (λ k. drop k ys) (omega arith)
  drop-append_right zero (x ∷ xs) ys h = absurd (omega arith)
  drop-append_right (suc n) (x ∷ xs) ys h =
      drop-append_right n xs ys (omega arith)
      ∙ ap (λ k. drop k ys) (let e : n - length xs ≡ suc n - suc (length xs) = omega arith in e)

  -- As much of a list as there is room for.
  pub take-min : (n : ℕ) (xs : List A) → take (min (length xs) n) xs ≡ take n xs
  take-min zero xs = ap (λ k. take k xs) (let e : min (length xs) 0 ≡ 0 = omega arith in e)
  take-min (suc n) [] = ap (λ k. take {A = A} k []) none
    where
      none : min (length {A = A} []) (suc n) ≡ 0
      none = omega arith
  take-min (suc n) (x ∷ xs) =
      ap (λ k. take k (x ∷ xs))
        (let e : min (length (x ∷ xs)) (suc n) ≡ suc (min (length xs) n) = omega arith in e)
      ∙ ap (λ l. x ∷ l) (take-min n xs)

  pub drop-min : (n : ℕ) (xs : List A) → drop (min (length xs) n) xs ≡ drop n xs
  drop-min zero xs = ap (λ k. drop k xs) (let e : min (length xs) 0 ≡ 0 = omega arith in e)
  drop-min (suc n) [] = ap (λ k. drop {A = A} k []) none
    where
      none : min (length {A = A} []) (suc n) ≡ 0
      none = omega arith
  drop-min (suc n) (x ∷ xs) =
      ap (λ k. drop k (x ∷ xs))
        (let e : min (length (x ∷ xs)) (suc n) ≡ suc (min (length xs) n) = omega arith in e)
      ∙ drop-min n xs

  -- A copy into a buffer, and what stands in front of it.
  pub take-write_at :
      (buf : List A) (i : ℕ) (xs : List A)
      → i + length xs ≤ length buf
      → take (i + length xs) (write_at buf i xs) ≡ take i buf ++ xs
  take-write_at buf i xs h =
      ap (λ b. take (i + length xs) b) written
      ∙ ap (take (i + length xs)) (sym (append_assoc (take i buf) xs back))
      ∙ take-append (i + length xs) (take i buf ++ xs) back
          (omega (arith, length-append (take i buf) xs, length-take i buf))
    where
      back : List A
      back = drop (length xs) (drop i buf)

      written : write_at buf i xs ≡ take i buf ++ (xs ++ back)
      written =
          ap (λ b. write_at b i xs)
            (sym (take-append-drop i buf)
              ∙ ap (λ l. take i buf ++ l) (sym (take-append-drop (length xs) (drop i buf))))
          ∙ write_at-append (take i buf) (take (length xs) (drop i buf)) xs back i
              (omega (arith, length-take (length xs) (drop i buf), length-drop i buf))
              (omega (arith, length-take i buf))
