-- ===== src/Globals/Cells.antt =====
-- What wasm_globals_set_i32 stores is what wasm_globals_get_i32 finds (runtime/include/wasm_globals.h).
use sledge_serverless_framew.Base.{
  ℕ, ◌+◌, ◌*◌, ◌^◌, ◌%◌, ◌/◌, ◌≤◌, ◌<◌, ◌≡◌, ◌≢◌, refl, Bool, true, false, ◌||◌, none, some, ok,
  fault, null_pointer, arith, update,
}
use sledge_serverless_framew.Globals
use sledge_serverless_framew.Globals.{
  GlobalType, unused, i32, i64, Global, Rc, done, out_of_range, mismatched, is_unused, zeroed,
}
use sledge_serverless_framew.Globals.Vector
use sledge_serverless_framew.Globals.Vector.{Vec}

-- Globals behind wasm_globals_init: as many cells as the capacity says, and a length of 0.
pub record IsLive (globals : Vec Global) (cells : ℕ → Global) : Type 0 where
  pub length : globals.length ≡ 0
  pub buffer : globals.buffer ≡ some cells
  pub capacity : 0 < globals.capacity

pub init-IsLive :
    (capacity : ℕ)
    → 0 < capacity
    → (v : Vec Global) × (Vector.init false zeroed capacity ≡ some v) × IsLive v (λ i. zeroed)
unfolding Vector.init
init-IsLive capacity h = (
  record { length = 0; capacity = capacity; buffer = some (λ i. zeroed) },
  ground arith,
  record { length = refl; buffer = refl; capacity = h },
)

pub get-live :
    (globals : Vec Global) (cells : ℕ → Global) (idx : ℕ)
    → IsLive globals cells
    → idx < globals.capacity
    → Vector.get globals idx ≡ ok (some (cells idx))
unfolding Vector.get
get-live globals cells idx l h = ground (arith, l.buffer)

low_half : (value upper : ℕ) → (value % 2 ^ 32 + upper * 2 ^ 32) % 2 ^ 32 ≡ value % 2 ^ 32
low_half value upper = omega arith

module _ (realloc_fails : Bool) (fresh : ℕ → Global) (upper : ℕ) (globals : Vec Global)
    (cells : ℕ → Global) (idx value : ℕ) (is_mutable : Bool) (l : IsLive globals cells)
    (h : idx < globals.capacity) where
  abbrev pub stored : GlobalType → Global
  stored type = record {
    type = type;
    mutable = is_mutable;
    value = value % 2 ^ 32 + upper * 2 ^ 32;
  }

  abbrev pub stored_in : GlobalType → Vec Global
  stored_in type = record globals { buffer = some (update cells idx (stored type)) }

  pub insert-live :
      (type : GlobalType)
      → (is_unused (cells idx).type || (cells idx).mutable) ≡ true
      → Globals.insert_global realloc_fails fresh upper type globals idx value is_mutable
        ≡ ok (stored_in type, done)
  unfolding Globals.insert_global Vector.get Vector.insert
  insert-live type w = ground (arith, l.buffer, l.length, l.capacity)

  pub stored-IsLive : (type : GlobalType) → IsLive (stored_in type) (update cells idx (stored type))
  stored-IsLive type = record { length = l.length; buffer = refl; capacity = l.capacity }

  stored-other :
      (type : GlobalType) (j : ℕ) → j ≢ idx → Vector.get (stored_in type) j ≡ Vector.get globals j
  unfolding Vector.get
  stored-other type j n = ground (arith, l.buffer)

  -- wasm_globals_set_i32 of a global within the capacity that is unused or mutable returns 0; then
  -- wasm_globals_get_i32 gives the value, wasm_globals_get_i64 reports a mismatched type, and every
  -- other global is as it was.
  pub set_i32_correct :
      (is_unused (cells idx).type || (cells idx).mutable) ≡ true
      → (r : Vec Global) × (Globals.set_i32 realloc_fails fresh upper globals idx value is_mutable
          ≡ ok (r, done))
        × (Globals.get_i32 r idx ≡ ok (done, some (value % 2 ^ 32)))
        × (Globals.get_i64 r idx ≡ ok (mismatched, none))
        × ((j : ℕ) → j ≢ idx → Vector.get r j ≡ Vector.get globals j)
  unfolding Globals.set_i32 Globals.get_i32 Globals.get_i64
  set_i32_correct w =
      let got =
        get-live (stored_in i32) (update cells idx (stored i32)) idx (stored-IsLive i32) h in
      (
        stored_in i32,
        insert-live i32 w,
        ground (arith, got, low_half value upper),
        ground (arith, got),
        stored-other i32,
      )

  -- A global that is in use and not mutable: the setters return -2 and change nothing.
  pub set-immutable :
      is_unused (cells idx).type ≡ false
      → (cells idx).mutable ≡ false
      → (Globals.set_i32 realloc_fails fresh upper globals idx value is_mutable
          ≡ ok (globals, mismatched))
        × (Globals.set_i64 realloc_fails fresh upper globals idx value is_mutable
            ≡ ok (globals, mismatched))
  unfolding Globals.set_i32 Globals.set_i64 Globals.insert_global
  set-immutable u m =
      let got = get-live globals cells idx l h in (ground (arith, got), ground (arith, got))

  -- wasm_globals_set_i64 of a global within the capacity that is unused or mutable returns 0, but
  -- wasm_globals_get_i64 then gives a value with the same lower half only: whatever the C compiler
  -- leaves in the upper half, every value with another upper half is lost.
  pub set_i64-truncates :
      (is_unused (cells idx).type || (cells idx).mutable) ≡ true
      → value / 2 ^ 32 ≢ upper
      → (r : Vec Global) × (found : ℕ) × (Globals.set_i64 realloc_fails fresh upper globals idx
            value is_mutable
          ≡ ok (r, done))
        × (Globals.get_i64 r idx ≡ ok (done, some found))
        × (found % 2 ^ 32 ≡ value % 2 ^ 32)
        × (found ≢ value)
  unfolding Globals.set_i64 Globals.get_i64
  set_i64-truncates w n =
      let got =
        get-live (stored_in i64) (update cells idx (stored i64)) idx (stored-IsLive i64) h in
      (
        stored_in i64,
        value % 2 ^ 32 + upper * 2 ^ 32,
        insert-live i64 w,
        ground (arith, got),
        low_half value upper,
        λ e. n (omega arith),
      )

module _ (realloc_fails : Bool) (fresh : ℕ → Global) (upper : ℕ) (globals : Vec Global)
    (idx value : ℕ) (is_mutable : Bool) where
  -- An index past the capacity: wasm_globals_get_i32 and wasm_globals_get_i64 return -1, but the
  -- setters, of which the caller expects the same, dereference NULL.
  pub past_the_end-faults :
      globals.capacity ≤ idx
      → (Globals.get_i32 globals idx ≡ ok (out_of_range, none))
        × (Globals.get_i64 globals idx ≡ ok (out_of_range, none))
        × (Globals.set_i32 realloc_fails fresh upper globals idx value is_mutable
            ≡ fault null_pointer)
        × (Globals.set_i64 realloc_fails fresh upper globals idx value is_mutable
            ≡ fault null_pointer)
  unfolding Globals.get_i32 Globals.get_i64 Globals.set_i32 Globals.set_i64 Globals.insert_global
      Vector.get
  past_the_end-faults h = (ground arith, ground arith, ground arith, ground arith)
