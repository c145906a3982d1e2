-- ===== src/Globals/Vector.antt =====
-- runtime/include/vec.h, a growable array.
use sledge_serverless_framew.Base.{
  ℕ, ◌+◌, ◌*◌, Bool, true, false, not, Option, none, some, Run, ok, fault, null_pointer,
  out_of_bounds, ◌>>=◌, ◌>>◌, assert, leb, ◌==◌, if◌then◌else◌, update,
}

-- `buffer` is `none` for NULL.
pub record Vec {ℓ} (A : Type ℓ) : Type ℓ where
  pub length : ℕ
  pub capacity : ℕ
  pub buffer : Option (ℕ → A)

abbrev is_null {ℓ} : {A : Type ℓ} → Option A → Bool
is_null none = true
is_null (some _) = false

module _ {ℓ} {A : Type ℓ} where
  -- `none` for -1. `calloc` gives cells that are `zeroed`, or NULL.
  unfoldable pub init : Bool → A → ℕ → Option (Vec A)
  init calloc_fails zeroed capacity =
      if capacity == 0
      then some (record { length = 0; capacity = 0; buffer = none })
      else if calloc_fails
      then none
      else some (record { length = 0; capacity = capacity; buffer = some (λ i. zeroed) })

  unfoldable pub deinit : Vec A → Run (Vec A)
  deinit vec =
      if vec.capacity == 0
      then assert (is_null vec.buffer) >> assert (vec.length == 0) >> ok vec
      else (do
        assert (not (is_null vec.buffer))
        ok (record { length = 0; capacity = 0; buffer = none }))

  -- `none` for NULL.
  unfoldable pub get : Vec A → ℕ → Run (Option A)
  get vec idx =
      if leb vec.capacity idx
      then ok none
      else elim vec.buffer [ none ↦ fault null_pointer | some cells ↦ ok (some (cells idx)) ]

  abbrev write : Vec A → ℕ → A → Run (Vec A)
  write vec idx value = elim vec.buffer [
    | none ↦ fault null_pointer
    | some cells ↦
        if leb vec.capacity idx
        then fault out_of_bounds
        else ok (record vec { buffer = some (update cells idx value) })
  ]

  -- The cells of a buffer behind `realloc`.
  abbrev kept : Option (ℕ → A) → ℕ → (ℕ → A) → ℕ → A
  kept none capacity fresh i = fresh i
  kept (some cells) capacity fresh i = if leb capacity i then fresh i else cells i

  module _ (realloc_fails : Bool) (fresh : ℕ → A) where
    -- `none` for -1.
    unfoldable pub resize : Vec A → ℕ → Option (Vec A)
    resize vec capacity =
        if vec.capacity == capacity
        then some vec
        else if realloc_fails
        then none
        else some
            (record vec { capacity = capacity; buffer = some (kept vec.buffer vec.capacity fresh) })

    unfoldable pub grow : Vec A → Option (Vec A)
    grow vec = resize vec (if vec.capacity == 0 then 1 else vec.capacity * 2)

    -- The second component tells of -1.
    unfoldable pub insert : Vec A → ℕ → A → Run (Vec A × Bool)
    insert vec idx value = elim (if vec.length == vec.capacity then grow vec else some vec) [
      | none ↦ ok (vec, true)
      | some room ↦ (do vec' ← write room idx value; ok (vec', false))
    ]

    unfoldable pub push : Vec A → A → Run (Vec A × Bool)
    push vec value = elim (if vec.length == vec.capacity then grow vec else some vec) [
      | none ↦ ok (vec, true)
      | some room ↦ (do
        vec' ← write room room.length value
        ok (record vec' { length = vec'.length + 1 }, false))
    ]
