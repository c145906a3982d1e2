-- ===== src/Numeric/Bits.antt =====
-- The digits of `&` and `|`, and what they give on fields of bits.
use sledge_serverless_framew.Base.{
  ℕ, zero, suc, ◌+◌, ◌*◌, ◌/◌, ◌%◌, ◌^◌, ◌≤◌, ◌<◌, ◌≡◌, refl, ap, ◌∙◌, sym, arith,
}
use Prim.Native.Nat.{bit_and, bit_or, min, max, digits, bit_and-bitwise, bit_or-bitwise}
use native.Mathlib.Nat.{pow-suc}

module _ (z : ℕ → ℕ) (f : ℕ → ℕ → ℕ) where
  -- Any count of digits that is enough gives the same.
  digits-enough : (n m a b : ℕ) → a ≤ n → a ≤ m → digits z f n a b ≡ digits z f m a b
  digits-enough zero zero a b p q = refl
  digits-enough zero (suc m) zero b p q = refl
  digits-enough zero (suc m) (suc a) b p q = absurd (omega arith)
  digits-enough (suc n) zero zero b p q = refl
  digits-enough (suc n) zero (suc a) b p q = absurd (omega arith)
  digits-enough (suc n) (suc m) zero b p q = refl
  digits-enough (suc n) (suc m) (suc a) b p q =
      ap (λ d. d * 2 + f (suc a % 2) (b % 2))
        (digits-enough n m (suc a / 2) (b / 2) (omega arith) (omega arith))

  digits-last :
      (a b : ℕ)
      → digits z f (suc a) (suc a) b
        ≡ digits z f (suc a / 2) (suc a / 2) (b / 2) * 2 + f (suc a % 2) (b % 2)
  digits-last a b =
      ap (λ d. d * 2 + f (suc a % 2) (b % 2))
        (digits-enough a (suc a / 2) (suc a / 2) (b / 2) (omega arith) (omega arith))

zero-or : (b : ℕ) → bit_or 0 b ≡ b
zero-or b = bit_or-bitwise 0 b

zero-and : (b : ℕ) → bit_and 0 b ≡ 0
zero-and b = bit_and-bitwise 0 b

-- The last digit by itself.
or-last : (a b : ℕ) → bit_or a b ≡ bit_or (a / 2) (b / 2) * 2 + max (a % 2) (b % 2)
or-last zero b = omega (arith, zero-or b, zero-or (b / 2))
or-last (suc a) b =
    bit_or-bitwise (suc a) b
    ∙ digits-last (λ b. b) max a b
    ∙ ap (λ d. d * 2 + max (suc a % 2) (b % 2)) (sym (bit_or-bitwise (suc a / 2) (b / 2)))

and-last : (a b : ℕ) → bit_and a b ≡ bit_and (a / 2) (b / 2) * 2 + min (a % 2) (b % 2)
and-last zero b = omega (arith, zero-and b, zero-and (b / 2))
and-last (suc a) b =
    bit_and-bitwise (suc a) b
    ∙ digits-last (λ b. 0) min a b
    ∙ ap (λ d. d * 2 + min (suc a % 2) (b % 2)) (sym (bit_and-bitwise (suc a / 2) (b / 2)))

-- With as many halvings as the first number has units.
or-same : (n a : ℕ) → a ≤ n → bit_or a a ≡ a
or-same zero zero h = zero-or 0
or-same zero (suc a) h = absurd (omega arith)
or-same (suc n) zero h = zero-or 0
or-same (suc n) (suc a) h =
    omega (arith, or-last (suc a) (suc a), or-same n (suc a / 2) (omega arith))

or-nil : (n a : ℕ) → a ≤ n → bit_or a 0 ≡ a
or-nil zero zero h = zero-or 0
or-nil zero (suc a) h = absurd (omega arith)
or-nil (suc n) zero h = zero-or 0
or-nil (suc n) (suc a) h = omega (arith, or-last (suc a) 0, or-nil n (suc a / 2) (omega arith))

and-nil : (n a : ℕ) → a ≤ n → bit_and a 0 ≡ 0
and-nil zero zero h = zero-and 0
and-nil zero (suc a) h = absurd (omega arith)
and-nil (suc n) zero h = zero-and 0
and-nil (suc n) (suc a) h = omega (arith, and-last (suc a) 0, and-nil n (suc a / 2) (omega arith))

pub bit_or_self : (a : ℕ) → bit_or a a ≡ a
bit_or_self a = or-same a a (omega arith)

doubled : (q k : ℕ) → q * 2 ^ suc k ≡ 2 * (q * 2 ^ k)
doubled q k = omega (arith, ap (λ p. q * p) (pow-suc 2 k))

-- A field of `k` bits beside a higher one, in either order.
pub bit_or-high_low : (k q r : ℕ) → r < 2 ^ k → bit_or (q * 2 ^ k) r ≡ q * 2 ^ k + r
bit_or-high_low zero q r h = ground (arith, or-nil q q (omega arith))
bit_or-high_low (suc k) q r h =
    ground
      (arith, doubled q k, or-last (q * 2 ^ suc k) r, bit_or-high_low k q (r / 2) (omega arith))

pub bit_or-low_high : (k q r : ℕ) → r < 2 ^ k → bit_or r (q * 2 ^ k) ≡ r + q * 2 ^ k
bit_or-low_high zero q r h = ground (arith, zero-or q)
bit_or-low_high (suc k) q r h =
    ground
      (arith, doubled q k, or-last r (q * 2 ^ suc k), bit_or-low_high k q (r / 2) (omega arith))

-- The masks of a rotation.
and-1 : (a : ℕ) → bit_and a 1 ≡ a % 2
and-1 a = omega (arith, and-last a 1, and-nil (a / 2) (a / 2) (omega arith))

and-7 : (a : ℕ) → bit_and a 7 ≡ a % 8
and-7 a = omega (arith, and-last a 7, and-last (a / 2) 3, and-1 (a / 2 / 2))

pub and-31 : (a : ℕ) → bit_and a 31 ≡ a % 32
and-31 a = omega (arith, and-last a 31, and-last (a / 2) 15, and-7 (a / 2 / 2))

pub and-63 : (a : ℕ) → bit_and a 63 ≡ a % 64
and-63 a = omega (arith, and-last a 63, and-31 (a / 2))
