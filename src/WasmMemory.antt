-- ===== src/WasmMemory.antt =====
-- runtime/include/wasm_memory.h: the linear memory of a sandbox, a reserved range of addresses of
-- which a part is readable and writable. Bytes are numbers below 256. The operating system answers
-- mmap and mprotect; its answer is a parameter (`true`: success), and mmap gives zeroed memory.
-- Values are unsigned here: a signed or floating value is the number with the same bytes.
pub mod Recycle
pub mod Fresh
pub mod Access
pub mod Bounds
mod Tests
use sledge_serverless_framew.Base.{
  ℕ, zero, suc, ◌+◌, ◌-◌, ◌*◌, ◌/◌, ◌%◌, ◌^◌, Bool, true, false, ◌&&◌, not, Option, none, some, Run,
  ok, fault, out_of_bounds, null_pointer, assertion, ◌>>=◌, ◌>>◌, assert, ltb, leb, ◌==◌,
  if◌then◌else◌,
}

abbrev pub u64 : ℕ → ℕ
u64 n = n % 2 ^ 64

abbrev pub u32 : ℕ → ℕ
u32 n = n % 2 ^ 32

-- WASM_MEMORY_MAX
abbrev pub memory_max : ℕ
memory_max = 2 ^ 32

abbrev pub page_size : ℕ
page_size = 65536

-- `buffer` is `none` for NULL. `accessible` is how far mprotect made the buffer readable and writable.
pub record WasmMemory : Type 0 where
  pub buffer : Option (ℕ → ℕ)
  pub accessible : ℕ
  pub size : ℕ
  pub capacity : ℕ
  pub max : ℕ

-- The negative return codes are all -1.
pub data Rc : Type 0 where
  done failed : Rc

-- After a failure the buffer is no valid address, and nothing reads it.
pub init : Bool → Bool → WasmMemory → ℕ → ℕ → Run (WasmMemory × Rc)
init mmap mprotect m initial max = do
  assert (ltb 0 initial)
  assert (leb initial memory_max)
  assert (ltb 0 max)
  assert (leb max memory_max)
  if mmap && mprotect
      then ok (
        record {
          buffer = some (λ i. 0);
          accessible = initial;
          size = initial;
          capacity = initial;
          max = max;
        },
        done,
      )
      else ok (record m { buffer = none }, failed)

-- `none`: NULL. A failure of wasm_memory_init aborts, by `assert(0)`.
pub alloc : Bool → Bool → Bool → ℕ → ℕ → Run (Option WasmMemory)
alloc aligned_alloc mmap mprotect initial max =
    let blank : WasmMemory = record {
      buffer = none;
      accessible = 0;
      size = 0;
      capacity = 0;
      max = 0;
    } in
    let started = init mmap mprotect blank initial max in
    if aligned_alloc
    then (do (m, rc) ← started; elim rc [ done ↦ ok (some m) | failed ↦ fault assertion ])
    else ok none

pub deinit : WasmMemory → Run WasmMemory
deinit m = elim m.buffer [
  | none ↦ fault assertion
  | some _ ↦ ok (record { buffer = none; accessible = 0; size = 0; capacity = 0; max = 0 })
]

-- `memset(buffer, 0, size)` writes `size` bytes, which must be accessible.
pub reinit : WasmMemory → ℕ → Run WasmMemory
reinit m initial = elim m.buffer [
  | none ↦ fault null_pointer
  | some b ↦
      if leb m.size m.accessible
      then ok (record m { buffer = some (λ i. if ltb i m.size then 0 else b i); size = initial })
      else fault out_of_bounds
]

pub expand : Bool → WasmMemory → ℕ → WasmMemory × Rc
expand mprotect m size_to_expand =
    let target_size = u64 (m.size + size_to_expand) in
    if ltb m.max target_size
    then (m, failed)
    else if ltb m.capacity target_size && not mprotect
    then (m, failed)
    else (
      record m {
        accessible = if ltb m.capacity target_size then target_size else m.accessible;
        capacity = if ltb m.capacity target_size then target_size else m.capacity;
        size = target_size;
      },
      done,
    )

-- sledge_abi__wasm_memory_expand of runtime/src/sledge_abi.c, which memory.grow calls, less the two
-- sandbox state changes around it: `page_count * WASM_PAGE_SIZE` is a product of 32-bit numbers.
-- `none` is the result -1.
pub grow : Bool → WasmMemory → ℕ → WasmMemory × Option ℕ
grow mprotect m page_count =
    let (m', rc) = expand mprotect m (u32 (page_count * page_size)) in
    elim rc [ done ↦ (m', some (m.size / page_size)) | failed ↦ (m', none) ]

pub get_size : WasmMemory → ℕ
get_size m = m.size

pub get_page_count : WasmMemory → ℕ
get_page_count m = u32 (m.size / page_size)

-- The access of `n` bytes at `offset`, which the hardware allows within the accessible part.
pub touch : WasmMemory → ℕ → ℕ → Run (ℕ → ℕ)
touch m offset n = elim m.buffer [
  | none ↦ fault null_pointer
  | some b ↦ if leb (offset + n) m.accessible then ok b else fault out_of_bounds
]

-- The number whose `n` bytes, the lowest first, stand at `offset`; and the bytes with that number put
-- there.
pub read_bytes : (ℕ → ℕ) → ℕ → ℕ → ℕ
read_bytes b offset zero = 0
read_bytes b offset (suc n) = b offset + 256 * read_bytes b (offset + 1) n

pub write_bytes : (ℕ → ℕ) → ℕ → ℕ → ℕ → ℕ → ℕ
write_bytes b offset zero value = b
write_bytes b offset (suc n) value =
    write_bytes (λ i. if i == offset then value % 256 else b i) (offset + 1) n (value / 256)

-- wasm_memory_get_char, _i8, _i16, _i32, _i64, _f32 and _f64, by the size of the type. The sum with
-- `sizeof` is one of 64-bit numbers, which an offset of 32 bits does not overflow.
pub get : ℕ → WasmMemory → ℕ → Run ℕ
get n m offset = do
  assert (leb (u64 (offset + n)) m.size)
  b ← touch m offset n
  ok (read_bytes b offset n)

-- wasm_memory_set_i8, _i16, _i32, _i64, _f32 and _f64
pub set : ℕ → WasmMemory → ℕ → ℕ → Run WasmMemory
set n m offset value = do
  assert (leb (u64 (offset + n)) m.size)
  b ← touch m offset n
  ok (record m { buffer = some (write_bytes b offset n value) })

-- The stores of a WebAssembly module, set_i8 … set_f64 of libsledge/src/memory_instructions.c: no test
-- of the size, only the hardware's of what is accessible.
pub store : ℕ → WasmMemory → ℕ → ℕ → Run WasmMemory
store n m offset value = do
  b ← elim m.buffer [ none ↦ fault assertion | some b ↦ ok b ]
  _ ← touch m offset n
  ok (record m { buffer = some (write_bytes b offset n value) })

-- The loads, get_i8 … get_f64 of the same file.
pub load : ℕ → WasmMemory → ℕ → Run ℕ
load n m offset = do
  b ← elim m.buffer [ none ↦ fault assertion | some b ↦ ok b ]
  _ ← touch m offset n
  ok (read_bytes b offset n)

-- The region is a function of the index.
pub initialize_region : WasmMemory → ℕ → ℕ → (ℕ → ℕ) → Run WasmMemory
initialize_region m offset region_size region = do
  assert (leb (offset + region_size) m.size)
  b ← touch m offset region_size
  ok (record m {
    buffer =
        some
          (λ i. if leb offset i && ltb i (offset + region_size) then region (i - offset) else b i);
  })

-- The pointer as an offset into the buffer. The sum is one of 32-bit numbers.
pub get_ptr_void : WasmMemory → ℕ → ℕ → Run ℕ
get_ptr_void m offset size = do assert (leb (u32 (offset + size)) m.size); ok offset

-- `strnlen` over at most `n` bytes
pub strnlen : (ℕ → ℕ) → ℕ → ℕ → ℕ
strnlen b offset zero = 0
strnlen b offset (suc n) = if b offset == 0 then 0 else suc (strnlen b (offset + 1) n)

-- The string as its offset, `none` for NULL.
pub get_string : WasmMemory → ℕ → ℕ → Run (Option ℕ)
get_string m offset size = do
  assert (leb (offset + size) m.size)
  b ← touch m offset size
  ok (if ltb (strnlen b offset size) size then some offset else none)
