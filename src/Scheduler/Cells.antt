-- ===== src/Scheduler/Cells.antt =====
-- The cells of a range and the multiset of what they hold.
use sledge_serverless_framew.Base.{
  ℕ, zero, suc, ◌≤◌, ◌<◌, ◌≡◌, refl, arith, ◌==◌, occurrences, Bool-cases, inl, inr,
}

pub cell-occurs : (f : ℕ → ℕ) (n i : ℕ) → 0 < i → i ≤ n → 0 < occurrences f n (f i)
unfolding occurrences
cell-occurs f zero i p h = absurd (omega arith)
cell-occurs f (suc n) i p h = ground (arith, cell-occurs f n i)

pub occurs-cell :
    (f : ℕ → ℕ) (n y : ℕ) → 0 < occurrences f n y → (i : ℕ) × (0 < i) × (i ≤ n) × (f i ≡ y)
unfolding occurrences
occurs-cell f zero y h = absurd (omega arith)
occurs-cell f (suc n) y h = elim (Bool-cases (f (suc n) == y)) [
  | inl e ↦ (suc n, omega arith, omega arith, ground arith)
  | inr e ↦ let (i, p, le, at) = occurs-cell f n y (ground arith) in (i, p, omega arith, at)
]

pub occurrences-agree :
    (f g : ℕ → ℕ) (n y : ℕ) → ((i : ℕ) → i ≤ n → f i ≡ g i) → occurrences f n y ≡ occurrences g n y
unfolding occurrences
occurrences-agree f g zero y h = refl
occurrences-agree f g (suc n) y h =
    ground (arith, h (suc n), occurrences-agree f g n y (λ i le. h i (omega arith)))
