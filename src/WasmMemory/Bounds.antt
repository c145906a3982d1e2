-- ===== src/WasmMemory/Bounds.antt =====
-- The bounds that the 32-bit arithmetic of runtime/include/wasm_memory.h and
-- runtime/src/sledge_abi.c keeps, and those that it loses.
use sledge_serverless_framew.Base.{
  ℕ, ◌+◌, ◌*◌, ◌/◌, ◌^◌, ◌≤◌, ◌<◌, ◌≡◌, refl, Bool, false, ◌&&◌, not, none, some, ◌⊎◌, inl, inr, ok,
  arith, ltb, if◌then◌else◌, Bool-cases,
}
use sledge_serverless_framew.WasmMemory
use sledge_serverless_framew.WasmMemory.{WasmMemory, page_size}
use sledge_serverless_framew.WasmMemory.Access.{IsLive}

unfoldable pub grown : WasmMemory → ℕ → WasmMemory
grown m size = record m {
  accessible = if ltb m.capacity size then size else m.accessible;
  capacity = if ltb m.capacity size then size else m.capacity;
  size = size;
}

grown-IsLive :
    (m : WasmMemory) (size : ℕ) → IsLive m → m.size ≤ size → size ≤ 2 ^ 32 → IsLive (grown m size)
unfolding grown
grown-IsLive m size live h bounded = record {
  bytes = live.bytes;
  buffer = live.buffer;
  size = ground arith;
  accessible = ground (arith, live.accessible);
  capacity = ground (arith, live.capacity);
  max = live.max;
}

pub expand-cases :
    (mprotect : Bool) (m : WasmMemory) (size : ℕ)
    → IsLive m
    → size < 2 ^ 32
    → ((WasmMemory.expand mprotect m size).0 ≡ m)
      ⊎ (((WasmMemory.expand mprotect m size).0 ≡ grown m (m.size + size))
          × (m.size + size ≤ 2 ^ 32))
unfolding WasmMemory.expand grown
expand-cases mprotect m size live h = ground (arith, live.size, live.capacity, live.max)

-- memory.grow of a live memory by fewer than 65536 pages: if the new size exceeds the maximum, or
-- mprotect is needed and fails, the result is -1 and nothing changes. Otherwise the result is the
-- old number of pages, the size has grown by the pages, and no byte has changed; the memory is live
-- in both cases.
pub grow_correct :
    (mprotect : Bool) (m : WasmMemory) (page_count : ℕ)
    → IsLive m
    → page_count < 65536
    → let r = WasmMemory.grow mprotect m page_count in
      let size = m.size + page_count * page_size in
      IsLive r.0
      × ((((m.max < size) ⊎ ((m.capacity < size) × (mprotect ≡ false))) × (r ≡ (m, none)))
          ⊎ ((size ≤ m.max)
              × (r.1 ≡ some (m.size / page_size))
              × (r.0.size ≡ size)
              × (r.0.buffer ≡ m.buffer)))
unfolding WasmMemory.grow WasmMemory.expand grown
grow_correct mprotect m page_count live h =
    let size = m.size + page_count * page_size in
    elim (Bool-cases (ltb m.max size)) [
      | inl e ↦
          let at : WasmMemory.grow mprotect m page_count ≡ (m, none) =
            ground (arith, live.size, live.capacity) in
          rw at (live, inl (inl (ground arith), refl))
      | inr e ↦ elim (Bool-cases (ltb m.capacity size && not mprotect)) [
        | inl f ↦
            let at : WasmMemory.grow mprotect m page_count ≡ (m, none) =
              ground (arith, live.size, live.capacity) in
            rw at (live, inl (inr (ground arith, ground arith), refl))
        | inr f ↦
            let at : WasmMemory.grow mprotect m page_count
                ≡ (grown m size, some (m.size / page_size)) =
              ground (arith, live.size, live.capacity) in
            rw at (
              grown-IsLive m size live (omega arith) (ground (arith, live.max)),
              inr (ground arith, refl, refl, refl),
            )
      ]
    ]

-- `page_count * WASM_PAGE_SIZE` is 0 in 32 bits for a multiple of 65536 pages: memory.grow by that
-- many pages of a live memory whose size is within its maximum succeeds, with the old number of pages
-- for its result, and the memory stays as it is.
pub grow-wraps :
    (mprotect : Bool) (m : WasmMemory) (k : ℕ)
    → IsLive m
    → m.size ≤ m.max
    → WasmMemory.grow mprotect m (65536 * k) ≡ (m, some (m.size / page_size))
unfolding WasmMemory.grow WasmMemory.expand
grow-wraps mprotect m k live h = ground (arith, live.size, live.capacity)

-- `offset + size` wraps in 32 bits: for a region that ends past 2 ^ 32, by no more than the size of
-- the memory, wasm_memory_get_ptr_void returns the pointer although the region ends past the memory.
pub get_ptr_void-admits :
    (m : WasmMemory) (offset size : ℕ)
    → IsLive m
    → offset < 2 ^ 32
    → size < 2 ^ 32
    → 2 ^ 32 < offset + size
    → offset + size ≤ 2 ^ 32 + m.size
    → (WasmMemory.get_ptr_void m offset size ≡ ok offset) × (m.size < offset + size)
unfolding WasmMemory.get_ptr_void
get_ptr_void-admits m offset size live a b lo hi =
    (ground arith, ground (arith, live.size, live.capacity))
