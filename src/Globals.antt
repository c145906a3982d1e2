-- ===== src/Globals.antt =====
-- The globals and the tables of a module instance: runtime/include/vec.h, wasm_globals.h and
-- wasm_table.h, and the instructions of libsledge/src/table_instructions.c.
-- A value is its bit pattern, and a function pointer its address, 0 for NULL.
pub mod Vector
pub mod Cells
pub mod Table
mod Tests
use sledge_serverless_framew.Base.{
  ℕ, ◌+◌, ◌*◌, ◌^◌, ◌%◌, Bool, true, false, ◌&&◌, not, Option, none, some, Run, ok, fault,
  null_pointer, ◌>>=◌, ◌==◌, if◌then◌else◌,
}
use sledge_serverless_framew.Globals.Vector.{Vec}

-- `enum wasm_global_type`
pub data GlobalType : Type 0 where
  unused i32 i64 : GlobalType

-- `wasm_global_t`. `value` is the union of an `int32_t`, its lower half, and an `int64_t`.
pub record Global : Type 0 where
  pub type : GlobalType
  pub mutable : Bool
  pub value : ℕ

-- The cells of `calloc`.
abbrev pub zeroed : Global
zeroed = record { type = unused; mutable = false; value = 0 }

-- The return codes 0, -1 and -2.
pub data Rc : Type 0 where
  done out_of_range mismatched : Rc

abbrev pub is_unused : GlobalType → Bool
is_unused unused = true
is_unused _ = false

-- `wasm_globals_update_if_used`: the value for `dest`.
unfoldable pub update_if_used : Vec Global → ℕ → ℕ → Run ℕ
update_if_used globals idx dest = do
  cell ← Vector.get globals idx
  elim cell [
    | none ↦ fault null_pointer
    | some global ↦ ok (if is_unused global.type then dest else global.value)
  ]

-- The second component is `*return_val`, where it is written.
unfoldable pub get_i32 : Vec Global → ℕ → Run (Rc × Option ℕ)
get_i32 globals idx = do
  cell ← Vector.get globals idx
  elim cell [
    | none ↦ ok (out_of_range, none)
    | some global ↦ elim global.type [
      | i32 ↦ ok (done, some (global.value % 2 ^ 32))
      | _ ↦ ok (mismatched, none)
    ]
  ]

unfoldable pub get_i64 : Vec Global → ℕ → Run (Rc × Option ℕ)
get_i64 globals idx = do
  cell ← Vector.get globals idx
  elim cell [
    | none ↦ ok (out_of_range, none)
    | some global ↦ elim global.type [
      | i64 ↦ ok (done, some global.value)
      | _ ↦ ok (mismatched, none)
    ]
  ]

-- `realloc_fails` and `fresh`: whether `realloc` gives NULL, and what its new cells hold. `.value =
-- value` initializes the first member of the union, the `int32_t`; `upper` is what the C compiler
-- leaves in the other bytes, which the language does not say.
module _ (realloc_fails : Bool) (fresh : ℕ → Global) (upper : ℕ) where
  unfoldable pub insert_global : GlobalType → Vec Global → ℕ → ℕ → Bool → Run (Vec Global × Rc)
  insert_global type globals idx value is_mutable = do
    cell ← Vector.get globals idx
    elim cell [
      | none ↦ fault null_pointer
      | some current ↦
          if not (is_unused current.type) && not current.mutable
          then ok (globals, mismatched)
          else (do
            (globals', failed) ← Vector.insert realloc_fails fresh globals idx (record {
              type = type;
              mutable = is_mutable;
              value = value % 2 ^ 32 + upper * 2 ^ 32;
            })
            ok (globals', if failed then out_of_range else done))
    ]

  unfoldable pub set_i32 : Vec Global → ℕ → ℕ → Bool → Run (Vec Global × Rc)
  set_i32 globals idx value is_mutable = insert_global i32 globals idx value is_mutable

  unfoldable pub set_i64 : Vec Global → ℕ → ℕ → Bool → Run (Vec Global × Rc)
  set_i64 globals idx value is_mutable = insert_global i64 globals idx value is_mutable
