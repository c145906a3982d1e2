-- ===== src/WasmMemory/Access.antt =====
-- Reads and writes of a linear memory (runtime/include/wasm_memory.h).
use native.Mathlib.Nat.{pow-suc}
use sledge_serverless_framew.Base.{
  ℕ, zero, suc, ◌+◌, ◌/◌, ◌^◌, ◌≤◌, ◌<◌, ◌≡◌, refl, some, ◌⊎◌, inl, inr, ok, fault, assertion,
  arith, Returns,
}
use sledge_serverless_framew.WasmMemory
use sledge_serverless_framew.WasmMemory.{WasmMemory, read_bytes, write_bytes}

-- A live memory: the buffer is there, and what mprotect made accessible covers the size and fits
-- the 32-bit address space.
pub record IsLive (m : WasmMemory) : Type 0 where
  pub bytes : ℕ → ℕ
  pub buffer : m.buffer ≡ some bytes
  pub size : m.size ≤ m.capacity
  pub accessible : m.accessible ≡ m.capacity
  pub capacity : m.capacity ≤ 2 ^ 32
  pub max : m.max ≤ 2 ^ 32

pub write_bytes-outside :
    (b : ℕ → ℕ) (offset n value i : ℕ)
    → (i < offset) ⊎ (offset + n ≤ i)
    → write_bytes b offset n value i ≡ b i
unfolding write_bytes
write_bytes-outside b offset zero value i h = refl
write_bytes-outside b offset (suc n) value i h =
    ground
      (arith, write_bytes-outside (write_bytes b offset 1 value) (offset + 1) n (value / 256) i)

read_bytes-agree :
    (b c : ℕ → ℕ) (offset n : ℕ)
    → ((i : ℕ) → offset ≤ i → i < offset + n → b i ≡ c i)
    → read_bytes b offset n ≡ read_bytes c offset n
unfolding read_bytes
read_bytes-agree b c offset zero h = refl
read_bytes-agree b c offset (suc n) h = ground (
  arith,
  h offset,
  read_bytes-agree b c (offset + 1) n (λ i lo hi. h i (omega arith) (omega arith)),
)

read_bytes-write_bytes :
    (b : ℕ → ℕ) (offset n value : ℕ)
    → value < 256 ^ n
    → read_bytes (write_bytes b offset n value) offset n ≡ value
unfolding read_bytes write_bytes
read_bytes-write_bytes b offset zero value h = omega arith
read_bytes-write_bytes b offset (suc n) value h = ground (
  arith,
  pow-suc 256 n,
  write_bytes-outside (write_bytes b offset 1 value) (offset + 1) n (value / 256) offset,
  read_bytes-write_bytes (write_bytes b offset 1 value) (offset + 1) n (value / 256)
      (omega (arith, pow-suc 256 n)),
)

-- The end of a run that returns, with the memory it leaves.
module _ (m : WasmMemory) (live : IsLive m) where
  touch-ok : (offset n : ℕ) → offset + n ≤ m.size → WasmMemory.touch m offset n ≡ ok live.bytes
  unfolding WasmMemory.touch
  touch-ok offset n h = ground (arith, live.buffer, live.size, live.accessible)

  -- A write of `n` bytes within the size of a live memory, of a value that fits them, returns; the
  -- memory is as it was but for its bytes, a read of the `n` bytes gives the value, and a read of any
  -- bytes that do not overlap them gives what it gave before.
  pub get-set :
      (n offset value : ℕ)
      → offset + n ≤ m.size
      → value < 256 ^ n
      → Returns
          (λ r.
            (r.size ≡ m.size)
            × (WasmMemory.get n r offset ≡ ok value)
            × ((k other : ℕ)
                → other + k ≤ m.size
                → (other + k ≤ offset) ⊎ (offset + n ≤ other)
                → WasmMemory.get k r other ≡ WasmMemory.get k m other))
          (WasmMemory.set n m offset value)
  unfolding WasmMemory.get WasmMemory.set WasmMemory.touch
  get-set n offset value h v = (
    record m { buffer = some (write_bytes live.bytes offset n value) },
    ground (arith, live.buffer, live.size, live.accessible, live.capacity),
    (
      refl,
      ground (
        arith,
        live.size,
        live.accessible,
        live.capacity,
        read_bytes-write_bytes live.bytes offset n value v,
      ),
      λ k other h' apart. ground (
        arith,
        live.buffer,
        live.size,
        live.accessible,
        live.capacity,
        read_bytes-agree (write_bytes live.bytes offset n value) live.bytes other k (λ i lo hi.
            write_bytes-outside live.bytes offset n value i
              (elim apart [ inl below ↦ inl (omega arith) | inr above ↦ inr (omega arith) ])),
      ),
    ),
  )

  -- An access by the runtime of a live memory, at an offset of 32 bits and of at most 8 bytes, that
  -- reaches past the size fails its assertion, a read and a write alike.
  pub get-outside :
      (n offset value : ℕ)
      → offset < 2 ^ 32
      → n ≤ 8
      → m.size < offset + n
      → (WasmMemory.get n m offset ≡ fault assertion)
        × (WasmMemory.set n m offset value ≡ fault assertion)
  unfolding WasmMemory.get WasmMemory.set
  get-outside n offset value o k h = (ground arith, ground arith)
