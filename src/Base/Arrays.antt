-- ===== src/Base/Arrays.antt =====
-- A C array as the function from its indices to its cells, and the multiset of a range of cells.
use Prim.Native.Nat.{ℕ, zero, suc, ◌+◌, ◌≤◌, ◌<◌}
use mathlib.Core.Path.{◌≡◌, refl}
use native.Mathlib.Omega.{arith}
use sledge_serverless_framew.Base.Tests.{◌==◌, if◌then◌else◌}

-- `a[i] = v`
abbrev pub update {ℓ} : {A : Type ℓ} → (ℕ → A) → ℕ → A → ℕ → A
update f i v j = if i == j then v else f j

-- What `a[i]` and `a[j]` hold changes places.
abbrev pub swapped {ℓ} : {A : Type ℓ} → (ℕ → A) → ℕ → ℕ → ℕ → A
swapped f i j = update (update f j (f i)) i (f j)

-- How often `x` stands in the cells 1 … n.
unfoldable pub occurrences : (ℕ → ℕ) → ℕ → ℕ → ℕ
occurrences f zero x = 0
occurrences f (suc n) x = (if f (suc n) == x then 1 else 0) + occurrences f n x

abbrev pub one_if : ℕ → ℕ → ℕ
one_if a x = if a == x then 1 else 0

pub occurrences-update_above :
    (f : ℕ → ℕ) (n i v x : ℕ) → n < i → occurrences (update f i v) n x ≡ occurrences f n x
unfolding occurrences
occurrences-update_above f zero i v x h = refl
occurrences-update_above f (suc n) i v x h = ground (arith, occurrences-update_above f n i v x)

-- A write inside the range trades the old value for the new one.
pub occurrences-update :
    (f : ℕ → ℕ) (n i v x : ℕ)
    → 0 < i
    → i ≤ n
    → occurrences (update f i v) n x + one_if (f i) x ≡ occurrences f n x + one_if v x
unfolding occurrences
occurrences-update f zero i v x p h = absurd (omega arith)
occurrences-update f (suc n) i v x p h =
    ground (arith, occurrences-update f n i v x, occurrences-update_above f n i v x)

pub occurrences-swapped :
    (f : ℕ → ℕ) (n i j x : ℕ)
    → 0 < i
    → i ≤ n
    → 0 < j
    → j ≤ n
    → occurrences (swapped f i j) n x ≡ occurrences f n x
occurrences-swapped f n i j x p h q k =
    ground
      (arith, occurrences-update f n j (f i) x, occurrences-update (update f j (f i)) n i (f j) x)
