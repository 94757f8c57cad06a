-- ===== src/Base/Chunks.antt =====
-- Copies into and out of a ring buffer in two pieces, one up to the end and one from the front.
use Prim.Native.Nat.{ℕ, zero, suc, ◌+◌, ◌-◌, ◌%◌, ◌≤◌, ◌<◌, min}
use mathlib.Core.Path.{◌≡◌, refl, sym, ap, ap₂, ◌∙◌}
use mathlib.Core.Logic.{inl, inr}
use mathlib.Core.List.{List, [], ◌∷◌, ◌++◌, append_assoc, append-nil}
use native.Mathlib.Nat.{mod-add-mod, mod-eq_of_lt, add-mod_right, zero-add}
use native.Mathlib.Omega.{arith}
use bcnp.Base.Tests.{ltb, ltb→lt, ltb→le, Bool-cases, if◌then◌else◌}
use bcnp.Base.Lists.{
  length, get_or, set, take, drop, length-set, length-take, length-drop, take-append-drop,
}
use bcnp.Base.Slices.{take-all, drop-drop, write_at-append, write_at}
use bcnp.Base.Window.{window, window-set, window-add, window_start}

module _ {ℓ} {A : Type ℓ} (cap : ℕ) where
  -- One element after the other, going round at the capacity.
  abbrev pub put_all : List A → ℕ → List A → List A
  put_all buf i [] = buf
  put_all buf i (x ∷ xs) = put_all (set buf (i % cap) x) (i + 1) xs

  pub length-put_all : (buf : List A) (i : ℕ) (xs : List A) → length (put_all buf i xs) ≡ length buf
  length-put_all buf i [] = refl
  length-put_all buf i (x ∷ xs) =
      length-put_all (set buf (i % cap) x) (i + 1) xs ∙ length-set buf (i % cap) x

  pub put_all_same :
      (buf : List A) (i j : ℕ) (xs : List A)
      → i % cap ≡ j % cap
      → put_all buf i xs ≡ put_all buf j xs
  put_all_same buf i j [] e = refl
  put_all_same buf i j (x ∷ xs) e =
      ap (λ k. put_all (set buf k x) (i + 1) xs) e
      ∙ put_all_same (set buf (j % cap) x) (i + 1) (j + 1) xs
          (sym (mod-add-mod i cap 1) ∙ ap (λ k. (k + 1) % cap) e ∙ mod-add-mod j cap 1)

  put_all-append :
      (buf : List A) (i : ℕ) (xs ys : List A)
      → put_all buf i (xs ++ ys) ≡ put_all (put_all buf i xs) (i + length xs) ys
  put_all-append buf i [] ys = ap (λ k. put_all buf k ys) (omega arith)
  put_all-append buf i (x ∷ xs) ys =
      put_all-append (set buf (i % cap) x) (i + 1) xs ys
      ∙ ap (λ k. put_all (put_all (set buf (i % cap) x) (i + 1) xs) k ys) (omega arith)

  write_at-eq-put_all :
      (buf : List A) (i : ℕ) (xs : List A)
      → i + length xs ≤ cap
      → write_at buf i xs ≡ put_all buf i xs
  write_at-eq-put_all buf i [] h = refl
  write_at-eq-put_all buf i (x ∷ xs) h =
      write_at-eq-put_all (set buf i x) (suc i) xs (omega arith)
      ∙ ap₂ (λ k j. put_all (set buf k x) j xs) (sym (mod-eq_of_lt {n = i} {m = cap} (omega arith)))
          (omega arith)

  -- The two pieces of a write from the index `i` on.
  abbrev pub put_chunks : List A → ℕ → List A → List A
  put_chunks buf i xs =
      let k = min (length xs) (cap - i) in
      let first = write_at buf i (take k xs) in
      if ltb 0 (length xs - k) then write_at first 0 (drop k xs) else first

  pub put_chunks-eq-put_all :
      (buf : List A) (i : ℕ) (xs : List A)
      → i < cap
      → length xs ≤ cap
      → put_chunks buf i xs ≡ put_all buf i xs
  put_chunks-eq-put_all buf i xs hi hx = elim (Bool-cases (ltb 0 (length xs - k))) [
    | inl round ↦
        let first = write_at-eq-put_all buf i (take k xs) (omega (arith, length-take k xs)) in
        let back =
          write_at-eq-put_all (write_at buf i (take k xs)) 0 (drop k xs)
            (omega (arith, length-drop k xs)) in
        let wraps = ap (λ j. j % cap) (end_is_cap (ltb→lt 0 (length xs - k) round)) in
        rw round (
          back
          ∙ put_all_same (write_at buf i (take k xs)) 0 (i + length (take k xs)) (drop k xs)
              (sym (add-mod_right 0 cap) ∙ ap (λ j. j % cap) (zero-add cap) ∙ sym wraps)
          ∙ ap (λ b. put_all b (i + length (take k xs)) (drop k xs)) first
          ∙ sym (put_all-append buf i (take k xs) (drop k xs))
          ∙ ap (put_all buf i) (take-append-drop k xs))
    | inr straight ↦
        let whole = take-all k xs (omega (arith, ltb→le 0 (length xs - k) straight)) in
        rw straight (
          ap (write_at buf i) whole
          ∙ write_at-eq-put_all buf i xs (omega (arith, ltb→le 0 (length xs - k) straight)))
  ]
    where
      k : ℕ
      k = min (length xs) (cap - i)

      end_is_cap : 0 < length xs - k → i + length (take k xs) ≡ cap
      end_is_cap h = omega (arith, length-take k xs)

  -- What was written stands behind what was there.
  pub window-put_all :
      (blank : A) (buf : List A) (h n : ℕ) (xs : List A)
      → n + length xs ≤ cap
      → cap ≤ length buf
      → window cap blank (put_all buf (h + n) xs) h (n + length xs) ≡ window cap blank buf h n ++ xs
  window-put_all blank buf h n [] room fits =
      ap (window cap blank buf h) (omega arith) ∙ sym (append-nil (window cap blank buf h n))
  window-put_all blank buf h n (x ∷ xs) room fits =
      ap₂ (λ j m. window cap blank (put_all (set buf ((h + n) % cap) x) j xs) h m) (omega arith)
        (omega arith)
      ∙ window-put_all blank (set buf ((h + n) % cap) x) h (n + 1) xs (omega arith)
          (omega (arith, length-set buf ((h + n) % cap) x))
      ∙ ap (λ l. l ++ xs) (window-set cap blank buf h n x (omega arith) fits)
      ∙ append_assoc (window cap blank buf h n) (x ∷ []) xs

module _ {ℓ} {A : Type ℓ} (cap : ℕ) (blank : A) where
  -- A window that does not go round is a slice of the buffer.
  pub window-eq-slice :
      (buf : List A) (s n : ℕ)
      → s + n ≤ cap
      → cap ≤ length buf
      → window cap blank buf s n ≡ take n (drop s buf)
  window-eq-slice buf s zero h fits = refl
  window-eq-slice buf s (suc n) h fits =
      ap₂ (λ k l. get_or buf k blank ∷ l) (mod-eq_of_lt {n = s} {m = cap} (omega arith))
        (window-eq-slice buf (suc s) n (omega arith) fits)
      ∙ sym (front buf s n (omega arith))
    where
      front :
          (xs : List A) (s n : ℕ)
          → s < length xs
          → take (suc n) (drop s xs) ≡ get_or xs s blank ∷ take n (drop (suc s) xs)
      front [] s n h = absurd (omega arith)
      front (x ∷ xs) zero n h = refl
      front (x ∷ xs) (suc s) n h = front xs s n (omega arith)

  write_at_front :
      (dest xs : List A)
      → length xs ≤ length dest
      → write_at dest 0 xs ≡ xs ++ drop (length xs) dest
  write_at_front dest xs h =
      ap (λ l. write_at l 0 xs) (sym (take-append-drop (length xs) dest))
      ∙ write_at-append [] (take (length xs) dest) xs (drop (length xs) dest) 0
          (omega (arith, length-take (length xs) dest)) refl

  pub write_at_behind :
      (front dest xs : List A) (k : ℕ)
      → length front ≡ k
      → length xs ≤ length dest
      → write_at (front ++ dest) k xs ≡ (front ++ xs) ++ drop (length xs) dest
  write_at_behind front dest xs k e h =
      ap (λ l. write_at (front ++ l) k xs) (sym (take-append-drop (length xs) dest))
      ∙ write_at-append front (take (length xs) dest) xs (drop (length xs) dest) k
          (omega (arith, length-take (length xs) dest)) (sym e)
      ∙ sym (append_assoc front xs (drop (length xs) dest))

  -- The two pieces of a read of `n` elements from the index `s` on.
  abbrev pub get_chunks : List A → ℕ → ℕ → List A → List A
  get_chunks buf s n dest =
      let k = min n (cap - s) in
      let first = write_at dest 0 (take k (drop s buf)) in
      if ltb 0 (n - k) then write_at first k (take (n - k) buf) else first

  -- A read puts the window to the front of the destination and leaves the rest of it.
  pub get_chunks-eq-window :
      (buf : List A) (s n : ℕ) (dest : List A)
      → s < cap
      → n ≤ cap
      → cap ≤ length buf
      → n ≤ length dest
      → get_chunks buf s n dest ≡ window cap blank buf s n ++ drop n dest
  get_chunks-eq-window buf s n dest hs hn fits room = elim (Bool-cases (ltb 0 (n - k))) [
    | inl round ↦
        let some_left = ltb→lt 0 (n - k) round in
        let len : length (take (n - k) buf) ≡ n - k = omega (arith, length-take (n - k) buf) in
        rw round (
          ap (λ l. write_at l k (take (n - k) buf)) first
          ∙ write_at_behind (take k (drop s buf)) (drop k dest) (take (n - k) buf) k piece
              (omega (arith, len, length-drop k dest))
          ∙ ap₂ ◌++◌ (both some_left) (
              ap (λ j. drop j (drop k dest)) len
              ∙ drop-drop (n - k) k dest
              ∙ ap (λ j. drop j dest) (omega arith)))
    | inr straight ↦
        let none_left = ltb→le 0 (n - k) straight in
        let all : k ≡ n = omega arith in
        rw straight (
          first
          ∙ ap (λ j. take j (drop s buf) ++ drop j dest) all
          ∙ ap (λ l. l ++ drop n dest) (sym (window-eq-slice buf s n (omega arith) fits)))
  ]
    where
      k : ℕ
      k = min n (cap - s)

      piece : length (take k (drop s buf)) ≡ k
      piece = omega (arith, length-take k (drop s buf), length-drop s buf)

      first : write_at dest 0 (take k (drop s buf)) ≡ take k (drop s buf) ++ drop k dest
      first =
          write_at_front dest (take k (drop s buf)) (omega (arith, piece))
          ∙ ap (λ j. take k (drop s buf) ++ drop j dest) piece

      both : 0 < n - k → take k (drop s buf) ++ take (n - k) buf ≡ window cap blank buf s n
      both h =
          ap₂ ◌++◌ (sym (window-eq-slice buf s k (omega arith) fits)) (
            sym (window-eq-slice buf 0 (n - k) (omega arith) fits)
            ∙ window_start cap blank buf 0 (s + k) (n - k) wraps)
          ∙ sym (window-add cap blank buf s k (n - k))
          ∙ ap (window cap blank buf s) (omega arith)
        where
          wraps : 0 % cap ≡ (s + k) % cap
          wraps =
              sym (add-mod_right 0 cap)
              ∙ ap (λ j. j % cap) (let q : 0 + cap ≡ s + k = omega arith in q)
