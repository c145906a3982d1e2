-- ===== src/Base/Outcome.antt =====
-- How a C function ends: it returns, or it stops the process. `Returns P r` says that `r` returns a
-- value that satisfies `P`.
use mathlib.Core.Path.{◌≡◌, refl, sym, ap, ◌∙◌, subst}
use mathlib.Core.Logic.{◌⊎◌, inl, inr}
use mathlib.Core.Bool.{Bool, true, false}

-- `assert` and `panic` abort; an access outside an object and a null pointer are undefined
-- behaviour; a lock that is held already is never granted; `out_of_fuel` is the model's own.
pub data Fault : Type 0 where
  assertion panicked out_of_bounds null_pointer deadlock out_of_fuel : Fault

pub data Run {ℓ} (A : Type ℓ) : Type ℓ where
  ok : A → Run A
  fault : Fault → Run A

infixl 5 ◌>>=◌ ◌>>◌
abbrev pub ◌>>=◌ {ℓ κ} : {A : Type ℓ} {B : Type κ} → Run A → (A → Run B) → Run B
ok a >>= f = f a
fault e >>= f = fault e

abbrev pub ◌>>◌ {ℓ} : {B : Type ℓ} → Run (Unit {0}) → Run B → Run B
m >> k = m >>= λ _. k

-- `assert(b)`
abbrev pub assert : Bool → Run (Unit {0})
assert true = ok tt
assert false = fault assertion

-- `if (b) panic(...)`
abbrev pub panic_if : Bool → Run (Unit {0})
panic_if true = fault panicked
panic_if false = ok tt

abbrev pub Returns {ℓ κ} : {A : Type ℓ} → (A → Type κ) → Run A → Type (ℓ ⊔ κ)
Returns {A} P r = (a : A) × (r ≡ ok a) × P a

-- To split on how a run ends.
pub Run-cases {ℓ} :
    {A : Type ℓ} (r : Run A) → ((a : A) × (r ≡ ok a)) ⊎ ((e : Fault) × (r ≡ fault e))
Run-cases (ok a) = inl (a, refl)
Run-cases (fault e) = inr (e, refl)

ok-injective {ℓ} : {A : Type ℓ} (a b : A) → ok a ≡ ok b → a ≡ b
ok-injective {A} a b e = ap (value_or a) e
  where
    value_or : A → Run A → A
    value_or d (ok x) = x
    value_or d (fault _) = d

-- The rules by which a post-condition passes through a bind.
module _ {ℓ κ} {A : Type ℓ} {P : A → Type κ} where
  pub Returns-bind {ℓ' κ'} :
      {B : Type ℓ'} {Q : B → Type κ'} (r : Run A) (f : A → Run B)
      → Returns P r
      → ((a : A) → P a → Returns Q (f a))
      → Returns Q (r >>= f)
  Returns-bind r f (a, e, p) k = let (b, e', q) = k a p in (b, rw e e', q)

  -- What a run returns is one value.
  pub Returns-ok : (r : Run A) (b : A) → Returns P r → r ≡ ok b → P b
  Returns-ok r b (a, e, p) h = subst P (ok-injective a b (sym e ∙ h)) p

  pub Returns-map {κ'} :
      {Q : A → Type κ'} (r : Run A) → Returns P r → ((a : A) → P a → Q a) → Returns Q r
  Returns-map r (a, e, p) k = (a, e, k a p)

-- Whatever the run returns satisfies `P`; a fault returns nothing.
abbrev pub Whenever {ℓ κ} : {A : Type ℓ} → (A → Type κ) → Run A → Type κ
Whenever P (ok a) = P a
Whenever P (fault e) = Unit
