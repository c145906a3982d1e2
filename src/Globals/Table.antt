-- ===== src/Globals/Table.antt =====
-- The table of functions of a module: runtime/include/wasm_table.h, and the calls that a module
-- makes on it, libsledge/src/table_instructions.c.
use sledge_serverless_framew.Base.{
  ℕ, ◌<◌, ◌≡◌, ◌≢◌, refl, Bool, true, false, ◌&&◌, not, Option, none, some, List, [], ◌∷◌, Run, ok,
  fault, assertion, null_pointer, ◌>>=◌, ◌>>◌, assert, leb, ltb, ◌==◌, if◌then◌else◌, update, arith,
  Bool-cases, Run-cases, inl, inr, ◌⊎◌,
}
use mathlib.Core.Path.{subst}

-- `sledge_abi__wasm_table_entry`
pub record Entry : Type 0 where
  pub type_id : ℕ
  pub func_pointer : ℕ

-- `sledge_abi__wasm_table`
pub record Table : Type 0 where
  pub length : ℕ
  pub capacity : ℕ
  pub buffer : Option (ℕ → Entry)

-- `sledge_abi__wasm_trap`
pub data Trap : Type 0 where
  invalid_index mismatched_type stack_overflow out_of_bounds_memory : Trap
  illegal_arithmetic unreachable : Trap

-- An instruction gives a value, or it traps and does not come back.
pub data Wasm {ℓ} (A : Type ℓ) : Type ℓ where
  value : A → Wasm A
  trap : Trap → Wasm A

-- wasm_table_init of a table from `calloc`; `none` for -1.
unfoldable pub init : Bool → ℕ → Option Table
init calloc_fails capacity =
    if capacity == 0
    then some (record { length = 0; capacity = 0; buffer = none })
    else if calloc_fails
    then none
    else some (record {
      length = 0;
      capacity = capacity;
      buffer = some (λ i. record { type_id = 0; func_pointer = 0 });
    })

abbrev is_null {ℓ} : {A : Type ℓ} → Option A → Bool
is_null none = true
is_null (some _) = false

unfoldable pub deinit : Table → Run Table
deinit table =
    if ltb 0 table.capacity
    then assert (is_null table.buffer) >> assert (table.length == 0) >> ok table
    else (do
      assert (not (is_null table.buffer))
      ok (record { length = 0; capacity = 0; buffer = none }))

-- `wasm_table->buffer[idx]`
unfoldable pub entry_at : Table → ℕ → Run Entry
entry_at table idx = elim table.buffer [ none ↦ fault null_pointer | some cells ↦ ok (cells idx) ]

unfoldable pub add_function_to_table : Table → ℕ → ℕ → ℕ → Run Table
add_function_to_table table idx type_id pointer = do
  assert (ltb idx table.capacity)
  assert (not (pointer == 0))
  entry ← entry_at table idx
  ok (record table {
    buffer =
        if entry.type_id == type_id && entry.func_pointer == pointer
        then table.buffer
        else elim table.buffer [
          | none ↦ none
          | some cells ↦
              some (update cells idx (record { type_id = type_id; func_pointer = pointer }))
        ];
  })

unfoldable pub get_function_from_table : Table → ℕ → ℕ → Run (Wasm ℕ)
get_function_from_table table idx type_id =
    if leb table.capacity idx then ok (trap invalid_index) else (do
      f ← entry_at table idx
      ok (
          if not (f.type_id == type_id)
          then trap mismatched_type
          else if f.func_pointer == 0
          then trap mismatched_type
          else value f.func_pointer))

-- The calls by which a module fills its table: an index, a type and a function each.
unfoldable pub add_all : List (ℕ × ℕ × ℕ) → Table → Run Table
add_all [] table = ok table
add_all ((idx, type_id, pointer) ∷ calls) table = do
  table' ← add_function_to_table table idx type_id pointer
  add_all calls table'

-- The function with the type is among the calls.
pub data Added (idx type_id pointer : ℕ) : List (ℕ × ℕ × ℕ) → Type 0 where
  added : (calls : List (ℕ × ℕ × ℕ)) → Added idx type_id pointer ((idx, type_id, pointer) ∷ calls)
  later :
      (call : ℕ × ℕ × ℕ) (calls : List (ℕ × ℕ × ℕ))
      → Added idx type_id pointer calls
      → Added idx type_id pointer (call ∷ calls)

-- wasm_table_deinit of a table that wasm_table_init made fails its assertion, whatever the capacity.
pub deinit-init :
    (capacity : ℕ) (table : Table)
    → init false capacity ≡ some table
    → deinit table ≡ fault assertion
unfolding deinit init
deinit-init capacity table e = ground (arith, e)

-- After add_function_to_table within the capacity, get_function_from_table at the index gives the
-- function at its type and traps at every other type, and finds at every other index what it found
-- before.
pub add-get :
    (table : Table) (cells : ℕ → Entry) (idx type_id pointer : ℕ)
    → table.buffer ≡ some cells
    → idx < table.capacity
    → pointer ≢ 0
    → (r : Table) × (add_function_to_table table idx type_id pointer ≡ ok r)
      × (get_function_from_table r idx type_id ≡ ok (value pointer))
      × ((other : ℕ)
          → other ≢ type_id
          → get_function_from_table r idx other ≡ ok (trap mismatched_type))
      × ((j t : ℕ) → j ≢ idx → get_function_from_table r j t ≡ get_function_from_table table j t)
unfolding add_function_to_table get_function_from_table entry_at
add-get table cells idx type_id pointer b h n =
    elim (Bool-cases ((cells idx).type_id == type_id && (cells idx).func_pointer == pointer)) [
      | inl same ↦
          (table, ground (arith, b), ground (arith, b), λ other m. ground (arith, b), λ j t m. refl)
      | inr new ↦ (
        record table {
          buffer = some (update cells idx (record { type_id = type_id; func_pointer = pointer }));
        },
        ground (arith, b),
        ground (arith, b),
        λ other m. ground (arith, b),
        λ j t m. ground (arith, b),
      )
    ]

get-add :
    (t r : Table) (i y p j u f : ℕ)
    → add_function_to_table t i y p ≡ ok r
    → get_function_from_table r j u ≡ ok (value f)
    → ((i ≡ j) × (y ≡ u) × (p ≡ f)) ⊎ (get_function_from_table t j u ≡ ok (value f))
unfolding add_function_to_table get_function_from_table entry_at
get-add t r i y p j u f e g = elim (Bool-cases (i == j && y == u && p == f)) [
  | inl same ↦ inl (ground arith)
  | inr other ↦ inr (ground (arith, e, g))
]

get-add_all :
    (calls : List (ℕ × ℕ × ℕ)) (t r : Table) (j u f : ℕ)
    → add_all calls t ≡ ok r
    → get_function_from_table r j u ≡ ok (value f)
    → Added j u f calls ⊎ (get_function_from_table t j u ≡ ok (value f))
unfolding add_all
get-add_all [] t r j u f e g = inr (ground (arith, e, g))
get-add_all ((i, y, p) ∷ calls) t r j u f e g = elim (Run-cases (add_function_to_table t i y p)) [
  | inr (reason, bad) ↦ absurd (ground (arith, e, bad))
  | inl (t', one) ↦ elim (get-add_all calls t' r j u f (ground (arith, e, one)) g) [
    | inl a ↦ inl (later (i, y, p) calls a)
    | inr g' ↦ elim (get-add t t' i y p j u f one g') [
      | inr old ↦ inr old
      | inl (ei, ey, ep) ↦ inl (
          subst (λ x. Added x u f ((i, y, p) ∷ calls)) ei
            (subst (λ x. Added i x f ((i, y, p) ∷ calls)) ey
              (subst (λ x. Added i y x ((i, y, p) ∷ calls)) ep (added calls))))
    ]
  ]
]

found-nonzero :
    (t : Table) (idx type_id f : ℕ) → get_function_from_table t idx type_id ≡ ok (value f) → f ≢ 0
unfolding get_function_from_table
found-nonzero t idx type_id f g z = ground (arith, g)

init-empty :
    (capacity : ℕ) (t : Table) (idx type_id f : ℕ)
    → init false capacity ≡ some t
    → get_function_from_table t idx type_id ≢ ok (value f)
unfolding init get_function_from_table entry_at
init-empty capacity t idx type_id f i g = ground (arith, i, g)

-- A call through the table is well-typed: what get_function_from_table finds at a type, after any
-- calls of add_function_to_table on a table from wasm_table_init, is not NULL and was added at that
-- index with that type.
pub get-typed :
    (capacity : ℕ) (calls : List (ℕ × ℕ × ℕ)) (t r : Table) (idx type_id f : ℕ)
    → init false capacity ≡ some t
    → add_all calls t ≡ ok r
    → get_function_from_table r idx type_id ≡ ok (value f)
    → (f ≢ 0) × Added idx type_id f calls
get-typed capacity calls t r idx type_id f i e g = (
  found-nonzero r idx type_id f g,
  elim (get-add_all calls t r idx type_id f e g) [
    | inl a ↦ a
    | inr old ↦ absurd (init-empty capacity t idx type_id f i old)
  ],
)
