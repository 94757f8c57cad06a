-- ===== src/Crc/Detect.antt =====
-- A run of bytes as one number, and what a change of up to four bytes in a row does.
use bcnp.Base.{ℕ, zero, suc, ◌+◌, ◌*◌, ◌^◌, ◌≤◌, ◌<◌, ◌≡◌, ◌≢◌, refl, sym, ap, ap₂, ◌∙◌}
use bcnp.Base.{arith, [], ◌∷◌, ◌++◌, bit_xor, All, length}
use bcnp.Base.Bits.{bit_xor-lt, bit_xor_injective, bit_xor_comm}
use bcnp.Base.Bits.{bit_xor-eq-add, bit_xor_assoc, bit_xor-zero}
use bcnp.Base.Words.{IsByte, IsU32}
use bcnp.Wire.{Bytes}
use bcnp.Crc.{crc_bit, crc_bits, crc_byte, crc_loop, compute_crc32}
use bcnp.Crc.Reference.{crc_bits_linear, crc_byte-eq-crc_bits}
use bcnp.Crc.Register.{crc_bits_injective, crc_byte-IsU32, crc_loop-IsU32}
use native.Mathlib.Nat.{pow-suc, zero-add}

-- The first byte is the lowest.
abbrev little_endian : Bytes → ℕ
little_endian [] = 0
little_endian (b ∷ bs) = little_endian bs * 256 + b

crc_bits-add : (k m x : ℕ) → crc_bits (k + m) x ≡ crc_bits m (crc_bits k x)
unfolding crc_bits
crc_bits-add zero m x = ap (λ k. crc_bits k x) (zero-add m)
crc_bits-add (suc k) m x = ap (λ j. crc_bits j x) shift ∙ crc_bits-add k m (crc_bit x)
  where
    shift : suc k + m ≡ suc (k + m)
    shift = omega arith

regroup : (a c b : ℕ) → bit_xor a (bit_xor c b) ≡ bit_xor c (bit_xor a b)
regroup a c b =
    sym (bit_xor_assoc a c b) ∙ ap (λ t. bit_xor t b) (bit_xor_comm a c) ∙ bit_xor_assoc c a b

-- One more byte at the front of a run that is still to be shifted out.
shift_byte :
    (n crc b rest : ℕ)
    → IsByte b
    → crc_bits (8 * n) (bit_xor (crc_byte crc b) rest)
      ≡ crc_bits (8 * suc n) (bit_xor crc (rest * 256 + b))
shift_byte n crc b rest h =
    ap (crc_bits (8 * n)) (
      ap (λ t. bit_xor t rest) (crc_byte-eq-crc_bits crc b h)
      ∙ bit_xor_comm (crc_bits 8 (bit_xor crc b)) rest
      ∙ sym (crc_bits_linear 8 rest (bit_xor crc b))
      ∙ ap (crc_bits 8) (regroup (rest * 256) crc b)
      ∙ ap (λ t. crc_bits 8 (bit_xor crc t)) (bit_xor-eq-add 8 rest b h))
    ∙ sym (crc_bits-add 8 (8 * n) (bit_xor crc (rest * 256 + b)))
    ∙ ap (λ k. crc_bits k (bit_xor crc (rest * 256 + b))) (omega arith)

-- A run of bytes goes into the register as one number, which is then shifted out.
crc_loop-little_endian :
    (crc : ℕ) (bytes : Bytes)
    → All IsByte bytes
    → crc_loop crc bytes ≡ crc_bits (8 * length bytes) (bit_xor crc (little_endian bytes))
unfolding crc_loop
crc_loop-little_endian crc [] h = sym (unfold crc_bits in bit_xor-zero crc)
crc_loop-little_endian crc (b ∷ bs) h =
    crc_loop-little_endian (crc_byte crc b) bs h.1
    ∙ shift_byte (length bs) crc b (little_endian bs) h.0

little_endian-lt :
    (k : ℕ) (bytes : Bytes) → All IsByte bytes → length bytes ≤ k → little_endian bytes < 256 ^ k
little_endian-lt zero [] h le = omega arith
little_endian-lt zero (b ∷ bs) h le = absurd (omega arith)
little_endian-lt (suc k) [] h le =
    omega (arith, pow-suc 256 k, little_endian-lt k [] tt (omega arith))
little_endian-lt (suc k) (b ∷ bs) h le =
    omega (arith, pow-suc 256 k, little_endian-lt k bs h.1 (omega arith))

crc_byte_injective :
    (b x y : ℕ) → IsU32 x → IsU32 y → IsByte b → crc_byte x b ≡ crc_byte y b → x ≡ y
crc_byte_injective b x y hx hy h e = bit_xor_injective b x y (
    bit_xor_comm b x
    ∙ crc_bits_injective 8 (bit_xor x b) (bit_xor y b) (bit_xor-lt 32 x b hx (omega arith))
        (bit_xor-lt 32 y b hy (omega arith))
        (sym (crc_byte-eq-crc_bits x b h) ∙ e ∙ crc_byte-eq-crc_bits y b h)
    ∙ bit_xor_comm y b)

little_endian_injective :
    (xs ys : Bytes)
    → All IsByte xs
    → All IsByte ys
    → length xs ≡ length ys
    → little_endian xs ≡ little_endian ys
    → xs ≡ ys
little_endian_injective [] [] hx hy l e = refl
little_endian_injective [] (y ∷ ys) hx hy l e = absurd (omega arith)
little_endian_injective (x ∷ xs) [] hx hy l e = absurd (omega arith)
little_endian_injective (x ∷ xs) (y ∷ ys) hx hy l e =
    ap₂ ◌∷◌ (omega arith) (little_endian_injective xs ys hx.1 hy.1 (omega arith) (omega arith))

crc_loop-append :
    (crc : ℕ) (xs ys : Bytes) → crc_loop crc (xs ++ ys) ≡ crc_loop (crc_loop crc xs) ys
unfolding crc_loop
crc_loop-append crc [] ys = refl
crc_loop-append crc (x ∷ xs) ys = crc_loop-append (crc_byte crc x) xs ys

-- Equal bytes behind it do not hide a difference of the register.
crc_loop_injective :
    (bytes : Bytes) (x y : ℕ)
    → IsU32 x
    → IsU32 y
    → All IsByte bytes
    → crc_loop x bytes ≡ crc_loop y bytes
    → x ≡ y
unfolding crc_loop
crc_loop_injective [] x y hx hy h e = e
crc_loop_injective (b ∷ bs) x y hx hy h e = crc_byte_injective b x y hx hy h.0 (
    crc_loop_injective bs (crc_byte x b) (crc_byte y b) (crc_byte-IsU32 x b hx h.0)
      (crc_byte-IsU32 y b hy h.0) h.1 e)

-- Two runs of at most four bytes, of one length, leave the same register only if they are equal.
burst_injective :
    (crc : ℕ) (xs ys : Bytes)
    → IsU32 crc
    → All IsByte xs
    → All IsByte ys
    → length xs ≤ 4
    → length xs ≡ length ys
    → crc_loop crc xs ≡ crc_loop crc ys
    → xs ≡ ys
burst_injective crc xs ys hc hx hy short l e = little_endian_injective xs ys hx hy l (
    bit_xor_injective crc (little_endian xs) (little_endian ys) (
      crc_bits_injective (8 * length xs) _ _ (wide xs hx short) (wide ys hy (omega arith)) (
        sym (crc_loop-little_endian crc xs hx)
        ∙ e
        ∙ crc_loop-little_endian crc ys hy
        ∙ ap (λ k. crc_bits (8 * k) (bit_xor crc (little_endian ys))) (sym l))))
  where
    wide : (zs : Bytes) → All IsByte zs → length zs ≤ 4 → IsU32 (bit_xor crc (little_endian zs))
    wide zs hz le = bit_xor-lt 32 crc (little_endian zs) hc (little_endian-lt 4 zs hz le)

-- Packets that differ only within four bytes in a row (a burst of up to 32 bits) have different
-- checksums, whatever stands before and after.
pub compute_crc32_detects_burst :
    (front xs ys back : Bytes)
    → All IsByte front
    → All IsByte xs
    → All IsByte ys
    → All IsByte back
    → length xs ≤ 4
    → length xs ≡ length ys
    → xs ≢ ys
    → compute_crc32 (front ++ (xs ++ back)) ≢ compute_crc32 (front ++ (ys ++ back))
unfolding compute_crc32
compute_crc32_detects_burst front xs ys back hf hx hy hb short l ne e =
    ne (burst_injective crc xs ys hc hx hy short l registers)
  where
    crc : ℕ
    crc = crc_loop 0xFFFFFFFF front

    hc : IsU32 crc
    hc = crc_loop-IsU32 0xFFFFFFFF front (omega arith) hf

    split :
        (zs : Bytes) → crc_loop 0xFFFFFFFF (front ++ (zs ++ back)) ≡ crc_loop (crc_loop crc zs) back
    split zs = crc_loop-append 0xFFFFFFFF front (zs ++ back) ∙ crc_loop-append crc zs back

    wholes :
        crc_loop 0xFFFFFFFF (front ++ (xs ++ back)) ≡ crc_loop 0xFFFFFFFF (front ++ (ys ++ back))
    wholes =
        bit_xor_injective 0xFFFFFFFF _ _ (bit_xor_comm 0xFFFFFFFF _ ∙ e ∙ bit_xor_comm _ 0xFFFFFFFF)

    registers : crc_loop crc xs ≡ crc_loop crc ys
    registers =
        crc_loop_injective back (crc_loop crc xs) (crc_loop crc ys) (crc_loop-IsU32 crc xs hc hx)
          (crc_loop-IsU32 crc ys hc hy) hb (sym (split xs) ∙ wholes ∙ split ys)
