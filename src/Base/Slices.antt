-- ===== src/Base/Slices.antt =====
-- Slices of a list: laws of `take` and `drop`.
use Prim.Native.Nat.{ℕ, zero, suc, ◌+◌, ◌≤◌, ◌<◌}
use mathlib.Core.Path.{◌≡◌, refl, sym, ap, ◌∙◌}
use mathlib.Core.List.{List, [], ◌∷◌, ◌++◌, append_assoc}
use native.Mathlib.Omega.{arith}
use native.Mathlib.Nat.{zero-add, add-zero}
use bcnp.Base.Lists.{length, get_or, set, take, drop, All, length-set, length-append}

module _ {ℓ} {A : Type ℓ} where
  pub take-all : (n : ℕ) (xs : List A) → length xs ≤ n → take n xs ≡ xs
  take-all zero [] h = refl
  take-all zero (x ∷ xs) h = absurd (omega arith)
  take-all (suc n) [] h = refl
  take-all (suc n) (x ∷ xs) h = ap (λ l. x ∷ l) (take-all n xs (omega arith))

  pub drop-all : (n : ℕ) (xs : List A) → length xs ≤ n → drop n xs ≡ []
  drop-all zero [] h = refl
  drop-all zero (x ∷ xs) h = absurd (omega arith)
  drop-all (suc n) [] h = refl
  drop-all (suc n) (x ∷ xs) h = drop-all n xs (omega arith)

  pub take-append_left : (n : ℕ) (xs ys : List A) → n ≤ length xs → take n (xs ++ ys) ≡ take n xs
  take-append_left zero xs ys h = refl
  take-append_left (suc n) [] ys h = absurd (omega arith)
  take-append_left (suc n) (x ∷ xs) ys h = ap (λ l. x ∷ l) (take-append_left n xs ys (omega arith))

  pub drop-append_left :
      (n : ℕ) (xs ys : List A) → n ≤ length xs → drop n (xs ++ ys) ≡ drop n xs ++ ys
  drop-append_left zero xs ys h = refl
  drop-append_left (suc n) [] ys h = absurd (omega arith)
  drop-append_left (suc n) (x ∷ xs) ys h = drop-append_left n xs ys (omega arith)

  -- The front and the rest of a list that is split at a known length.
  pub take-append : (n : ℕ) (xs ys : List A) → length xs ≡ n → take n (xs ++ ys) ≡ xs
  take-append n xs ys h = take-append_left n xs ys (omega arith) ∙ take-all n xs (omega arith)

  pub drop-append : (n : ℕ) (xs ys : List A) → length xs ≡ n → drop n (xs ++ ys) ≡ ys
  drop-append n xs ys h =
      drop-append_left n xs ys (omega arith) ∙ ap (λ l. l ++ ys) (drop-all n xs (omega arith))

  pub drop-drop : (n m : ℕ) (xs : List A) → drop n (drop m xs) ≡ drop (m + n) xs
  drop-drop n zero xs = ap (λ k. drop k xs) (omega arith)
  drop-drop n (suc m) [] = drop-all n [] (omega arith) ∙ empty (m + n) (suc m + n) (omega arith)
    where
      empty : (k j : ℕ) → j ≡ suc k → ◌≡◌ {A = List A} [] (drop j [])
      empty k j e = rw e
  drop-drop n (suc m) (x ∷ xs) = drop-drop n m xs ∙ skip (m + n) (suc m + n) (omega arith)
    where
      skip : (k j : ℕ) → j ≡ suc k → drop k xs ≡ drop j (x ∷ xs)
      skip k j e = rw e

  pub take-take : (n m : ℕ) (xs : List A) → n ≤ m → take n (take m xs) ≡ take n xs
  take-take zero m xs h = refl
  take-take (suc n) zero xs h = absurd (omega arith)
  take-take (suc n) (suc m) [] h = refl
  take-take (suc n) (suc m) (x ∷ xs) h = ap (λ l. x ∷ l) (take-take n m xs (omega arith))

  -- A slice that lies inside a front.
  pub take-drop-take :
      (n m k : ℕ) (xs : List A) → m + n ≤ k → take n (drop m (take k xs)) ≡ take n (drop m xs)
  take-drop-take n zero k xs h = take-take n k xs (omega arith)
  take-drop-take n (suc m) zero xs h = absurd (omega arith)
  take-drop-take n (suc m) (suc k) [] h = refl
  take-drop-take n (suc m) (suc k) (x ∷ xs) h = take-drop-take n m k xs (omega arith)

  pub take-add : (n m : ℕ) (xs : List A) → take (n + m) xs ≡ take n xs ++ take m (drop n xs)
  take-add zero m xs = ap (λ k. take k xs) (omega arith)
  take-add (suc n) m [] = empty m (suc n + m)
    where
      nil : (k : ℕ) → take {A = A} k [] ≡ []
      nil zero = refl
      nil (suc k) = refl

      empty : (k j : ℕ) → take {A = A} j [] ≡ take k []
      empty k j = rw (nil k, nil j)
  take-add (suc n) m (x ∷ xs) =
      unroll (suc n + m) (n + m) (omega arith) ∙ ap (λ l. x ∷ l) (take-add n m xs)
    where
      unroll : (j k : ℕ) → j ≡ suc k → take j (x ∷ xs) ≡ x ∷ take k xs
      unroll j k e = rw e

  pub take-drop_front :
      (n m : ℕ) (xs ys : List A)
      → m + n ≤ length xs
      → take n (drop m (xs ++ ys)) ≡ take n (drop m xs)
  take-drop_front n zero xs ys h = take-append_left n xs ys (omega arith)
  take-drop_front n (suc m) [] ys h = absurd (omega arith)
  take-drop_front n (suc m) (x ∷ xs) ys h = take-drop_front n m xs ys (omega arith)

  -- memcpy: the bytes from `i` on are replaced by `xs`.
  abbrev pub write_at : List A → ℕ → List A → List A
  write_at buf i [] = buf
  write_at buf i (x ∷ xs) = write_at (set buf i x) (suc i) xs

  pub length-write_at :
      (buf : List A) (i : ℕ) (xs : List A) → length (write_at buf i xs) ≡ length buf
  length-write_at buf i [] = refl
  length-write_at buf i (x ∷ xs) = length-write_at (set buf i x) (suc i) xs ∙ length-set buf i x

  pub set-append_right :
      (front back : List A) (i : ℕ) (v : A)
      → set (front ++ back) (length front + i) v ≡ front ++ set back i v
  set-append_right [] back i v = ap (λ k. set back k v) (zero-add i)
  set-append_right (x ∷ front) back i v =
      step (suc (length front) + i) (length front + i) (omega arith)
      ∙ ap (λ l. x ∷ l) (set-append_right front back i v)
    where
      step : (j k : ℕ) → j ≡ suc k → set (x ∷ (front ++ back)) j v ≡ x ∷ set (front ++ back) k v
      step j k e = rw e

  -- A copy over the part of a buffer that has its length.
  pub write_at-append :
      (front old new back : List A) (i : ℕ)
      → length old ≡ length new
      → i ≡ length front
      → write_at (front ++ (old ++ back)) i new ≡ front ++ (new ++ back)
  write_at-append front [] [] back i e h = refl
  write_at-append front [] (y ∷ new) back i e h = absurd (omega arith)
  write_at-append front (x ∷ old) [] back i e h = absurd (omega arith)
  write_at-append front (x ∷ old) (y ∷ new) back i e h =
      ap (λ b. write_at b (suc i) new) first
      ∙ write_at-append (front ++ (y ∷ [])) old new back (suc i) (omega arith)
          (omega (arith, length-append front (y ∷ [])))
      ∙ append_assoc front (y ∷ []) (new ++ back)
    where
      first : set (front ++ (x ∷ (old ++ back))) i y ≡ (front ++ (y ∷ [])) ++ (old ++ back)
      first =
          ap (λ k. set (front ++ (x ∷ (old ++ back))) k y) (h ∙ sym (add-zero (length front)))
          ∙ set-append_right front (x ∷ (old ++ back)) 0 y
          ∙ sym (append_assoc front (y ∷ []) (old ++ back))

  pub get_or-append_right :
      (front back : List A) (i : ℕ) (d : A)
      → get_or (front ++ back) (length front + i) d ≡ get_or back i d
  get_or-append_right [] back i d = ap (λ k. get_or back k d) (zero-add i)
  get_or-append_right (x ∷ front) back i d =
      step (suc (length front) + i) (length front + i) (omega arith)
      ∙ get_or-append_right front back i d
    where
      step : (j k : ℕ) → j ≡ suc k → get_or (x ∷ (front ++ back)) j d ≡ get_or (front ++ back) k d
      step j k e = rw e

  pub All-append {κ} : (P : A → Type κ) (xs ys : List A) → All P xs → All P ys → All P (xs ++ ys)
  All-append P [] ys p q = q
  All-append P (x ∷ xs) ys p q = (p.0, All-append P xs ys p.1 q)

  pub All-take {κ} : (P : A → Type κ) (n : ℕ) (xs : List A) → All P xs → All P (take n xs)
  All-take P zero xs p = tt
  All-take P (suc n) [] p = tt
  All-take P (suc n) (x ∷ xs) p = (p.0, All-take P n xs p.1)

  pub All-drop {κ} : (P : A → Type κ) (n : ℕ) (xs : List A) → All P xs → All P (drop n xs)
  All-drop P zero xs p = p
  All-drop P (suc n) [] p = p
  All-drop P (suc n) (x ∷ xs) p = All-drop P n xs p.1

  pub All-get_or {κ} :
      (P : A → Type κ) (xs : List A) (i : ℕ) (d : A) → P d → All P xs → P (get_or xs i d)
  All-get_or P [] i d pd p = pd
  All-get_or P (x ∷ xs) zero d pd p = p.0
  All-get_or P (x ∷ xs) (suc i) d pd p = All-get_or P xs i d pd p.1

  pub All-split {κ} : (P : A → Type κ) (xs ys : List A) → All P (xs ++ ys) → All P xs × All P ys
  All-split P [] ys a = (tt, a)
  All-split P (x ∷ xs) ys a = let (front, back) = All-split P xs ys a.1 in ((a.0, front), back)

  -- A front that is longer by one element.
  pub take-add_one :
      (i : ℕ) (xs : List A) (d : A)
      → i < length xs
      → take i xs ++ (get_or xs i d ∷ []) ≡ take (i + 1) xs
  take-add_one i [] d h = absurd (omega arith)
  take-add_one zero (x ∷ xs) d h = refl
  take-add_one (suc i) (x ∷ xs) d h =
      ap (λ l. x ∷ l) (take-add_one i xs d (omega arith)) ∙ ap (λ k. take k (x ∷ xs)) (suc_is i)
    where
      suc_is : (k : ℕ) → suc (k + 1) ≡ suc k + 1
      suc_is k = omega arith
