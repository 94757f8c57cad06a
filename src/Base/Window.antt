-- ===== src/Base/Window.antt =====
-- What a ring buffer holds: `n` elements from the index `h` on, going round at the capacity.
use Prim.Native.Nat.{ℕ, zero, suc, ◌+◌, ◌-◌, ◌%◌, ◌≤◌, ◌<◌}
use mathlib.Core.Path.{◌≡◌, refl, sym, ap, ap₂, ◌∙◌}
use mathlib.Core.Logic.{◌≢◌}
use mathlib.Core.List.{List, [], ◌∷◌, ◌++◌}
use native.Mathlib.Nat.{mod-add-mod, mod-eq_of_lt, mod-eq-sub-mod, mod-lt, mod-mod, add-zero}
use native.Mathlib.Decide.{dec_lt}
use native.Mathlib.Omega.{arith}
use bcnp.Base.Lists.{length, get_or, set, take, drop, get_or-set_self, get_or-set_ne}

-- `k` steps round a ring of more than `k` places do not come back.
pub add-mod-ne : (a k cap : ℕ) → 0 < k → k < cap → (a + k) % cap ≢ a % cap
add-mod-ne a k cap hk hc e = elim (dec_lt (a % cap + k) cap) [
  | yes below ↦ omega (arith, folded, e, mod-eq_of_lt below)
  | no above ↦ omega (
    arith,
    folded,
    e,
    mod-eq-sub-mod {n = a % cap + k} {m = cap} (omega arith),
    mod-eq_of_lt {n = a % cap + k - cap} {m = cap}
        (omega (arith, mod-lt a {m = cap} (omega arith))),
  )
]
  where
    folded : (a % cap + k) % cap ≡ (a + k) % cap
    folded = mod-add-mod a cap k

module _ {ℓ} {A : Type ℓ} (cap : ℕ) (blank : A) where
  abbrev pub window : List A → ℕ → ℕ → List A
  window buf h zero = []
  window buf h (suc n) = get_or buf (h % cap) blank ∷ window buf (suc h) n

  pub length-window : (buf : List A) (h n : ℕ) → length (window buf h n) ≡ n
  length-window buf h zero = refl
  length-window buf h (suc n) = ap suc (length-window buf (suc h) n)

  pub get_or-window :
      (buf : List A) (h n i : ℕ)
      → i < n
      → get_or (window buf h n) i blank ≡ get_or buf ((h + i) % cap) blank
  get_or-window buf h zero i lt = absurd (omega arith)
  get_or-window buf h (suc n) zero lt = ap (λ k. get_or buf (k % cap) blank) (sym (add-zero h))
  get_or-window buf h (suc n) (suc i) lt =
      get_or-window buf (suc h) n i (omega arith) ∙ ap (λ k. get_or buf (k % cap) blank) same
    where
      same : suc h + i ≡ h + suc i
      same = omega arith

  -- Only the places of the window matter.
  pub window_ext :
      (buf buf' : List A) (h n : ℕ)
      → ((i : ℕ) → i < n → get_or buf ((h + i) % cap) blank ≡ get_or buf' ((h + i) % cap) blank)
      → window buf h n ≡ window buf' h n
  window_ext buf buf' h zero e = refl
  window_ext buf buf' h (suc n) e = ap₂ ◌∷◌ (rw add-zero at (e 0 (omega arith))) (
      window_ext buf buf' (suc h) n (λ i lt.
        ap (λ k. get_or buf (k % cap) blank) (shift i)
        ∙ e (suc i) (omega arith)
        ∙ ap (λ k. get_or buf' (k % cap) blank) (sym (shift i))))
    where
      shift : (i : ℕ) → suc h + i ≡ h + suc i
      shift i = omega arith

  -- The start may be given modulo the capacity.
  pub window_start :
      (buf : List A) (h h' n : ℕ) → h % cap ≡ h' % cap → window buf h n ≡ window buf h' n
  window_start buf h h' zero e = refl
  window_start buf h h' (suc n) e =
      ap₂ ◌∷◌ (ap (λ k. get_or buf k blank) e) (window_start buf (suc h) (suc h') n next)
    where
      next : suc h % cap ≡ suc h' % cap
      next =
          ap (λ k. k % cap) one
          ∙ sym (mod-add-mod h cap 1)
          ∙ ap (λ k. (k + 1) % cap) e
          ∙ mod-add-mod h' cap 1
          ∙ ap (λ k. k % cap) one'
        where
          one : suc h ≡ h + 1
          one = omega arith

          one' : h' + 1 ≡ suc h'
          one' = omega arith

  pub window_mod : (buf : List A) (h n : ℕ) → window buf (h % cap) n ≡ window buf h n
  window_mod buf h n = window_start buf (h % cap) h n (mod-mod h cap)

  pub window-add :
      (buf : List A) (h n m : ℕ) → window buf h (n + m) ≡ window buf h n ++ window buf (h + n) m
  window-add buf h zero m = ap₂ (window buf) (sym (add-zero h)) (omega arith)
  window-add buf h (suc n) m =
      ap (window buf h) regroup
      ∙ ap (λ l. get_or buf (h % cap) blank ∷ l)
          (window-add buf (suc h) n m ∙ ap (λ k. window buf (suc h) n ++ window buf k m) shift)
    where
      regroup : suc n + m ≡ suc (n + m)
      regroup = omega arith

      shift : suc h + n ≡ h + suc n
      shift = omega arith

  pub drop-window :
      (buf : List A) (h n k : ℕ) → k ≤ n → drop k (window buf h n) ≡ window buf (h + k) (n - k)
  drop-window buf h n zero le = ap₂ (window buf) (sym (add-zero h)) (omega arith)
  drop-window buf h zero (suc k) le = absurd (omega arith)
  drop-window buf h (suc n) (suc k) le =
      drop-window buf (suc h) n k (omega arith) ∙ ap₂ (window buf) (omega arith) (omega arith)

  pub take-window : (buf : List A) (h n k : ℕ) → k ≤ n → take k (window buf h n) ≡ window buf h k
  take-window buf h n zero le = refl
  take-window buf h zero (suc k) le = absurd (omega arith)
  take-window buf h (suc n) (suc k) le =
      ap (λ l. get_or buf (h % cap) blank ∷ l) (take-window buf (suc h) n k (omega arith))

  -- A write at the place just behind a window that is not full extends it.
  pub window-set :
      (buf : List A) (h n : ℕ) (x : A)
      → n < cap
      → cap ≤ length buf
      → window (set buf ((h + n) % cap) x) h (n + 1) ≡ window buf h n ++ (x ∷ [])
  window-set buf h n x lt room =
      window-add (set buf at x) h n 1
      ∙ ap₂ (λ l y. l ++ (y ∷ [])) (window_ext (set buf at x) buf h n untouched)
          (get_or-set_self buf at x blank (omega (arith, mod-lt (h + n) {m = cap} (omega arith))))
    where
      at : ℕ
      at = (h + n) % cap

      untouched :
          (i : ℕ)
          → i < n
          → get_or (set buf at x) ((h + i) % cap) blank ≡ get_or buf ((h + i) % cap) blank
      untouched i below = get_or-set_ne buf at ((h + i) % cap) x blank apart
        where
          apart : (h + n) % cap ≢ (h + i) % cap
          apart e =
              add-mod-ne (h + i) (n - i) cap (omega arith) (omega arith)
                (ap (λ k. k % cap) (let q : h + i + (n - i) ≡ h + n = omega arith in q) ∙ e)
