-- ===== src/Globals/Tests.antt =====
-- Globals and tables of a small module, and the theorems at them (runtime/include/wasm_globals.h).
use sledge_serverless_framew.Base.{
  ℕ, ◌+◌, ◌-◌, ◌^◌, ◌%◌, ◌≡◌, ◌≢◌, refl, false, true, none, some, List, [], ◌∷◌, ok, arith, update,
}
use sledge_serverless_framew.Globals
use sledge_serverless_framew.Globals.{GlobalType, unused, i32, i64, Global, done, mismatched}
use sledge_serverless_framew.Globals.Vector
use sledge_serverless_framew.Globals.Vector.{Vec}
use sledge_serverless_framew.Globals.Cells.{IsLive, set_i32_correct, set_i64-truncates}
use sledge_serverless_framew.Globals.Table.{
  Table, Added, value, init, add_all, add_function_to_table, get_function_from_table, get-typed,
  entry_at,
}

-- Two globals: a mutable `i64` of -1, and one that is not yet used.
abbrev cells : ℕ → Global
cells =
    update (λ i. record { type = unused; mutable = false; value = 0 }) 0
      (record { type = i64; mutable = true; value = 2 ^ 64 - 1 })

abbrev globals : Vec Global
globals = record { length = 0; capacity = 2; buffer = some cells }

abbrev fresh : ℕ → Global
fresh i = record { type = unused; mutable = false; value = 7 }

globals-IsLive : IsLive globals cells
globals-IsLive = record { length = refl; buffer = refl; capacity = omega arith }

set_i32_correct_example :
    (r : Vec Global) × (Globals.set_i32 false fresh 0 globals 1 41 true ≡ ok (r, done))
    × (Globals.get_i32 r 1 ≡ ok (done, some (41 % 2 ^ 32)))
    × (Globals.get_i64 r 1 ≡ ok (mismatched, none))
    × ((j : ℕ) → j ≢ 1 → Vector.get r j ≡ Vector.get globals j)
set_i32_correct_example =
    set_i32_correct false fresh 0 globals cells 1 41 true globals-IsLive (omega arith) refl

-- 2 ^ 32 + 5 becomes 5, if the compiler leaves zeros.
set_i64-truncates_example :
    (r : Vec Global) × (found : ℕ) × (Globals.set_i64 false fresh 0 globals 0 (2 ^ 32 + 5) true
      ≡ ok (r, done))
    × (Globals.get_i64 r 0 ≡ ok (done, some found))
    × (found % 2 ^ 32 ≡ (2 ^ 32 + 5) % 2 ^ 32)
    × (found ≢ 2 ^ 32 + 5)
set_i64-truncates_example =
    set_i64-truncates false fresh 0 globals cells 0 (2 ^ 32 + 5) true globals-IsLive (omega arith)
      refl (ground arith)

abbrev handler : ℕ
handler = 5000

abbrev calls : List (ℕ × ℕ × ℕ)
calls = (0, 3, 4096) ∷ (2, 1, 5000) ∷ []

abbrev empty : Table
empty = record {
  length = 0;
  capacity = 4;
  buffer = some (λ i. record { type_id = 0; func_pointer = 0 });
}

abbrev filled : Table
filled = record empty {
  buffer = some (
      update
        (update (λ i. record { type_id = 0; func_pointer = 0 }) 0
          (record { type_id = 3; func_pointer = 4096 }))
        2 (record { type_id = 1; func_pointer = 5000 }));
}

filled-is : add_all calls empty ≡ ok filled
unfolding add_all add_function_to_table entry_at
filled-is = refl

found : get_function_from_table filled 2 1 ≡ ok (value 5000)
unfolding get_function_from_table entry_at
found = refl

empty-is : init false 4 ≡ some empty
unfolding init
empty-is = refl

get-typed_example : (handler ≢ 0) × Added 2 1 handler calls
get-typed_example = get-typed 4 calls empty filled 2 1 5000 empty-is filled-is found
