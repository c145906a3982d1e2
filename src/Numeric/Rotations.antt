-- ===== src/Numeric/Rotations.antt =====
-- The rotations are rotations: they move the high bits of a word below its low bits, and one undoes the
-- other (libsledge/src/numeric_instructions.c).
use sledge_serverless_framew.Base.{
  ℕ, zero, suc, ◌+◌, ◌-◌, ◌*◌, ◌/◌, ◌%◌, ◌^◌, ◌≤◌, ◌<◌, ◌≡◌, ◌≢◌, ap, ◌∙◌, sym, arith, inl, inr,
  Bool-cases, ◌==◌,
}
use Prim.Native.Nat.{bit_and, bit_or}
use native.Mathlib.Nat.{
  pow-suc, one-le-pow, mul_assoc, mul_comm, add-mul, add_comm, add-zero, add-mul-mod_self_right,
  mod-eq_of_lt, mul-lt-mul_of_pos_right, mul-add-div_right, mul-add-mod_self_right, div-eq_of_lt,
  div-add-mod', div-lt_iff_lt-mul, mod-lt, pow-suc,
}
use mathlib.Core.Path.{subst}
use sledge_serverless_framew.Numeric
use sledge_serverless_framew.Numeric.{shl, shr, minus_u32}
use sledge_serverless_framew.Numeric.Bits.{
  bit_or_self, bit_or-high_low, bit_or-low_high, and-31, and-63,
}

-- A word of `width` bits rotated to the left by `c` bits.
abbrev pub rotated : ℕ → ℕ → ℕ → ℕ
rotated width n c = n % 2 ^ (width - c) * 2 ^ c + n / 2 ^ (width - c)

pow-add : (a b : ℕ) → 2 ^ (a + b) ≡ 2 ^ a * 2 ^ b
pow-add a zero = ground arith
pow-add a (suc b) =
    let next : a + suc b ≡ suc (a + b) = omega arith in
    ap (λ x. 2 ^ x) next
    ∙ pow-suc 2 (a + b)
    ∙ ap (λ p. p * 2) (pow-add a b)
    ∙ mul_assoc (2 ^ a) (2 ^ b) 2
    ∙ ap (λ p. 2 ^ a * p) (sym (pow-suc 2 b))

-- A word of two fields: `h` above, and `l` of fewer than `p` values below.
module _ (p q w h l : ℕ) (split : p * q ≡ w) (low : l < p) (high : h < q) where
  fields-shl : (h * p + l) * q % w ≡ l * q
  fields-shl =
      ap (λ x. x % w) fields
      ∙ add-mul-mod_self_right (l * q) h w
      ∙ mod-eq_of_lt
          (subst (λ x. l * q < x) split (mul-lt-mul_of_pos_right low (omega (arith, high))))
    where
      fields : (h * p + l) * q ≡ l * q + h * w
      fields =
          add-mul (h * p) l q
          ∙ ap (λ x. x + l * q) (mul_assoc h p q ∙ ap (λ x. h * x) split)
          ∙ add_comm (h * w) (l * q)

  fields-shr : (h * p + l) / p ≡ h
  fields-shr =
      mul-add-div_right (omega (arith, low)) h l ∙ ap (λ x. h + x) (div-eq_of_lt low) ∙ add-zero h

  fields-low : (h * p + l) % p ≡ l
  fields-low = mul-add-mod_self_right h p l ∙ mod-eq_of_lt low

-- The shifts of a word of `a + b` bits, one way and back.
module _ (a b n : ℕ) (fits : n < 2 ^ (a + b)) where
  high-fits : n / 2 ^ b < 2 ^ a
  high-fits =
      (div-lt_iff_lt-mul (one-le-pow b 2 (omega arith))).1 (subst (λ x. n < x) (pow-add a b) fits)

  low-fits : n % 2 ^ b < 2 ^ b
  low-fits = mod-lt n (one-le-pow b 2 (omega arith))

  swap-fields : 2 ^ b * 2 ^ a ≡ 2 ^ (a + b)
  swap-fields = mul_comm (2 ^ b) (2 ^ a) ∙ sym (pow-add a b)

  word : n / 2 ^ b * 2 ^ b + n % 2 ^ b ≡ n
  word = div-add-mod' n (2 ^ b)

  left-fields : bit_or (shl (a + b) n a) (shr n b) ≡ n % 2 ^ b * 2 ^ a + n / 2 ^ b
  left-fields =
      ap (λ x. bit_or x (n / 2 ^ b))
        (ap (λ x. x * 2 ^ a % 2 ^ (a + b)) (sym word)
          ∙ fields-shl (2 ^ b) (2 ^ a) (2 ^ (a + b)) (n / 2 ^ b) (n % 2 ^ b) swap-fields low-fits
              high-fits)
      ∙ bit_or-high_low a (n % 2 ^ b) (n / 2 ^ b) high-fits

  -- The shifts back, of the word with its fields changed over.
  back-fields :
      bit_or (shr (n % 2 ^ b * 2 ^ a + n / 2 ^ b) a) (shl (a + b) (n % 2 ^ b * 2 ^ a + n / 2 ^ b) b)
      ≡ n
  back-fields =
      ap (λ x. bit_or x (shl (a + b) (n % 2 ^ b * 2 ^ a + n / 2 ^ b) b))
        (fields-shr (2 ^ a) (2 ^ b) (2 ^ (a + b)) (n % 2 ^ b) (n / 2 ^ b) (sym (pow-add a b))
          high-fits low-fits)
      ∙ ap (λ x. bit_or (n % 2 ^ b) x)
          (fields-shl (2 ^ a) (2 ^ b) (2 ^ (a + b)) (n % 2 ^ b) (n / 2 ^ b) (sym (pow-add a b))
            high-fits low-fits)
      ∙ bit_or-low_high b (n / 2 ^ b) (n % 2 ^ b) low-fits
      ∙ add_comm (n % 2 ^ b) (n / 2 ^ b * 2 ^ b)
      ∙ word

-- The counts of the two shifts, unless the rotation is by nothing.
counts-32 :
    (c : ℕ)
    → c % 32 ≢ 0
    → (bit_and (c % 32) 31 ≡ c % 32) × (bit_and (minus_u32 (bit_and (c % 32) 31)) 31 ≡ 32 - c % 32)
counts-32 c n = (
  omega (arith, and-31 (c % 32)),
  omega (arith, n, and-31 (c % 32), and-31 (minus_u32 (bit_and (c % 32) 31))),
)

no-counts-32 :
    (c : ℕ)
    → c % 32 ≡ 0
    → (bit_and (c % 32) 31 ≡ 0) × (bit_and (minus_u32 (bit_and (c % 32) 31)) 31 ≡ 0)
no-counts-32 c n = (
  omega (arith, n, and-31 (c % 32)),
  omega (arith, n, and-31 (c % 32), and-31 (minus_u32 (bit_and (c % 32) 31))),
)

counts-64 :
    (c : ℕ)
    → c % 64 ≢ 0
    → (bit_and (c % 64) 63 ≡ c % 64) × (bit_and (minus_u32 (bit_and (c % 64) 63)) 63 ≡ 64 - c % 64)
counts-64 c n = (
  omega (arith, and-63 (c % 64)),
  omega (arith, n, and-63 (c % 64), and-63 (minus_u32 (bit_and (c % 64) 63))),
)

no-counts-64 :
    (c : ℕ)
    → c % 64 ≡ 0
    → (bit_and (c % 64) 63 ≡ 0) × (bit_and (minus_u32 (bit_and (c % 64) 63)) 63 ≡ 0)
no-counts-64 c n = (
  omega (arith, n, and-63 (c % 64)),
  omega (arith, n, and-63 (c % 64), and-63 (minus_u32 (bit_and (c % 64) 63))),
)

module _ (w n : ℕ) (fits : n < 2 ^ w) where
  shl-none : shl w n 0 ≡ n
  shl-none = let e : n * 2 ^ 0 ≡ n = omega arith in ap (λ x. x % 2 ^ w) e ∙ mod-eq_of_lt fits

  shr-none : shr n 0 ≡ n
  shr-none = omega arith

  rotated-none : rotated w n 0 ≡ n
  rotated-none =
      let e : w - 0 ≡ w = omega arith in
      subst (λ x. n % 2 ^ x * 2 ^ 0 + n / 2 ^ x ≡ n) (sym e)
        (omega (arith, mod-eq_of_lt fits, div-eq_of_lt fits))

  none : bit_or (shl w n 0) (shr n 0) ≡ n
  none = ap (λ x. bit_or x (shr n 0)) shl-none ∙ ap (λ x. bit_or n x) shr-none ∙ bit_or_self n

  none_back : bit_or (shr n 0) (shl w n 0) ≡ n
  none_back =
      ap (λ x. bit_or x (shl w n 0)) shr-none ∙ ap (λ x. bit_or n x) shl-none ∙ bit_or_self n

  module _ (r : ℕ) (le : r ≤ w) where
    width : r + (w - r) ≡ w
    width = omega (arith, le)

    left : bit_or (shl w n r) (shr n (w - r)) ≡ rotated w n r
    left =
        subst (λ x. bit_or (shl x n r) (shr n (w - r)) ≡ rotated w n r) width
          (left-fields r (w - r) n (subst (λ x. n < 2 ^ x) (sym width) fits))

    back : bit_or (shr (rotated w n r) r) (shl w (rotated w n r) (w - r)) ≡ n
    back =
        subst (λ x. bit_or (shr (rotated w n r) r) (shl x (rotated w n r) (w - r)) ≡ n) width
          (back-fields r (w - r) n (subst (λ x. n < 2 ^ x) (sym width) fits))

module _ (n c : ℕ) where
  rotl_u32-rotated : n < 2 ^ 32 → Numeric.rotl_u32 n c ≡ rotated 32 n (c % 32)
  unfolding Numeric.rotl_u32
  rotl_u32-rotated h = elim (Bool-cases (c % 32 == 0)) [
    | inl e ↦
        let z : c % 32 ≡ 0 = ground arith in
        let (i, j) = no-counts-32 c z in rw (j, i, z) (none 32 n h ∙ sym (rotated-none 32 n h))
    | inr e ↦
        let (i, j) = counts-32 c (ground arith) in rw (j, i) (left 32 n h (c % 32) (omega arith))
  ]

  rotr_u32-rotated : n < 2 ^ 32 → Numeric.rotr_u32 (rotated 32 n (c % 32)) c ≡ n
  unfolding Numeric.rotr_u32
  rotr_u32-rotated h = elim (Bool-cases (c % 32 == 0)) [
    | inl e ↦
        let z : c % 32 ≡ 0 = ground arith in
        let (i, j) = no-counts-32 c z in
        ap (λ x. Numeric.rotr_u32 x c) (ap (rotated 32 n) z ∙ rotated-none 32 n h)
        ∙ rw (j, i) (none_back 32 n h)
    | inr e ↦
        let (i, j) = counts-32 c (ground arith) in rw (j, i) (back 32 n h (c % 32) (omega arith))
  ]

  rotl_u64-rotated : n < 2 ^ 64 → Numeric.rotl_u64 n c ≡ rotated 64 n (c % 64)
  unfolding Numeric.rotl_u64
  rotl_u64-rotated h = elim (Bool-cases (c % 64 == 0)) [
    | inl e ↦
        let z : c % 64 ≡ 0 = ground arith in
        let (i, j) = no-counts-64 c z in rw (j, i, z) (none 64 n h ∙ sym (rotated-none 64 n h))
    | inr e ↦
        let (i, j) = counts-64 c (ground arith) in rw (j, i) (left 64 n h (c % 64) (omega arith))
  ]

  rotr_u64-rotated : n < 2 ^ 64 → Numeric.rotr_u64 (rotated 64 n (c % 64)) c ≡ n
  unfolding Numeric.rotr_u64
  rotr_u64-rotated h = elim (Bool-cases (c % 64 == 0)) [
    | inl e ↦
        let z : c % 64 ≡ 0 = ground arith in
        let (i, j) = no-counts-64 c z in
        ap (λ x. Numeric.rotr_u64 x c) (ap (rotated 64 n) z ∙ rotated-none 64 n h)
        ∙ rw (j, i) (none_back 64 n h)
    | inr e ↦
        let (i, j) = counts-64 c (ground arith) in rw (j, i) (back 64 n h (c % 64) (omega arith))
  ]

module _ (n wide c : ℕ) where
  -- rotl_u32 of a 32-bit word and rotl_u64 of a 64-bit word put the upper `c` bits of the word
  -- below its other bits, where `c` is the count modulo the width.
  pub rotl_correct :
      n < 2 ^ 32
      → wide < 2 ^ 64
      → (Numeric.rotl_u32 n c ≡ rotated 32 n (c % 32))
        × (Numeric.rotl_u64 wide c ≡ rotated 64 wide (c % 64))
  rotl_correct h k = (rotl_u32-rotated n c h, rotl_u64-rotated wide c k)

  -- A rotation to the right undoes the rotation to the left by the same count, of any word of 32
  -- bits and of 64 bits, and for any count.
  pub rotr-rotl :
      n < 2 ^ 32
      → wide < 2 ^ 64
      → (Numeric.rotr_u32 (Numeric.rotl_u32 n c) c ≡ n)
        × (Numeric.rotr_u64 (Numeric.rotl_u64 wide c) c ≡ wide)
  rotr-rotl h k = (
    ap (λ x. Numeric.rotr_u32 x c) (rotl_u32-rotated n c h) ∙ rotr_u32-rotated n c h,
    ap (λ x. Numeric.rotr_u64 x c) (rotl_u64-rotated wide c k) ∙ rotr_u64-rotated wide c k,
  )
