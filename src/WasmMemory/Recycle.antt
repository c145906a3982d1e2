-- ===== src/WasmMemory/Recycle.antt =====
-- What one sandbox leaves in a linear memory for the next one: the memory goes through
-- wasm_memory_reinit into a pool and out of it (runtime/include/wasm_memory.h, module.h).
use sledge_serverless_framew.Base.{
  ℕ, ◌+◌, ◌-◌, ◌*◌, ◌^◌, ◌≤◌, ◌<◌, ◌≡◌, refl, Bool, ◌&&◌, some, inl, inr, ok, arith, ltb, leb,
  if◌then◌else◌, Returns,
}
use sledge_serverless_framew.WasmMemory
use sledge_serverless_framew.WasmMemory.{WasmMemory, write_bytes}
use sledge_serverless_framew.WasmMemory.Access.{IsLive, write_bytes-outside}
use sledge_serverless_framew.WasmMemory.Fresh.{IsFresh}
use sledge_serverless_framew.WasmMemory.Bounds.{grown, expand-cases}

-- One operation of a sandbox on its memory: a write or a read-only call of the runtime, a segment of
-- the module's data, memory.grow, or a store of the module's code that stays within the size.
pub data Step (m : WasmMemory) : WasmMemory → Type 0 where
  sets :
      (n offset value : ℕ) (r : WasmMemory)
      → offset < 2 ^ 32
      → n ≤ 8
      → WasmMemory.set n m offset value ≡ ok r
      → Step m r
  fills :
      (offset size : ℕ) (region : ℕ → ℕ) (r : WasmMemory)
      → WasmMemory.initialize_region m offset size region ≡ ok r
      → Step m r
  grows : (mprotect : Bool) (page_count : ℕ) → Step m (WasmMemory.grow mprotect m page_count).0
  stores :
      (n offset value : ℕ) (r : WasmMemory)
      → offset + n ≤ m.size
      → WasmMemory.store n m offset value ≡ ok r
      → Step m r

pub data Session (m : WasmMemory) : WasmMemory → Type 0 where
  begin : Session m m
  onward : {r s : WasmMemory} → Session m r → Step r s → Session m s

-- Live, of at least `starting` bytes of capacity, and zero past the size.
record IsClean (initial : ℕ) (m : WasmMemory) : Type 0 where
  live : IsLive m
  starting : initial ≤ m.capacity
  tail : (i : ℕ) → m.size ≤ i → live.bytes i ≡ 0

abbrev written-IsLive :
    (m : WasmMemory) (c : ℕ → ℕ) → IsLive m → IsLive (record m { buffer = some c })
written-IsLive m c live = record {
  bytes = c;
  buffer = refl;
  size = live.size;
  accessible = live.accessible;
  capacity = live.capacity;
  max = live.max;
}

written-IsClean :
    (starting : ℕ) (m : WasmMemory) (c : ℕ → ℕ)
    → (k : IsClean starting m) → ((i : ℕ) → m.size ≤ i → c i ≡ k.live.bytes i)
    → IsClean starting (record m { buffer = some c })
written-IsClean starting m c k h = record {
  live = written-IsLive m c k.live;
  starting = k.starting;
  tail = λ i le. cc (h i le, k.tail i le);
}

grown-IsClean :
    (starting : ℕ) (m : WasmMemory) (size : ℕ)
    → IsClean starting m
    → m.size ≤ size
    → size ≤ 2 ^ 32
    → IsClean starting (grown m size)
unfolding grown
grown-IsClean starting m size k h bounded = record {
  live = record {
    bytes = k.live.bytes;
    buffer = k.live.buffer;
    size = ground arith;
    accessible = ground (arith, k.live.accessible);
    capacity = ground (arith, k.live.capacity);
    max = k.live.max;
  };
  starting = ground (arith, k.starting);
  tail = λ i le. k.tail i (omega arith);
}

grow-expand :
    (mprotect : Bool) (m : WasmMemory) (page_count : ℕ)
    → (WasmMemory.grow mprotect m page_count).0
      ≡ (WasmMemory.expand mprotect m (WasmMemory.u32 (page_count * 65536))).0
unfolding WasmMemory.grow
grow-expand mprotect m page_count = ground arith

grow-IsClean :
    (starting : ℕ) (mprotect : Bool) (m : WasmMemory) (page_count : ℕ)
    → IsClean starting m
    → IsClean starting (WasmMemory.grow mprotect m page_count).0
grow-IsClean starting mprotect m page_count k =
    let more = WasmMemory.u32 (page_count * 65536) in
    rw (grow-expand mprotect m page_count)
      (elim (expand-cases mprotect m more k.live (omega arith)) [
        | inl e ↦ rw e k
        | inr (e, bounded) ↦ rw e (grown-IsClean starting m (m.size + more) k (omega arith) bounded)
      ])

Step-IsClean :
    (starting : ℕ) (m r : WasmMemory) → Step m r → IsClean starting m → IsClean starting r
unfolding WasmMemory.set WasmMemory.initialize_region WasmMemory.store WasmMemory.touch
Step-IsClean starting m r (sets n offset value r' o h e) k =
    let at : r ≡ record m { buffer = some (write_bytes k.live.bytes offset n value) } =
      ground (arith, k.live.buffer) in
    let inside : offset + n ≤ m.size = ground arith in
    rw at (
      written-IsClean starting m _ k
        λ i le. write_bytes-outside k.live.bytes offset n value i (inr (omega arith)))
Step-IsClean starting m r (fills offset size region r' e) k =
    let c : ℕ → ℕ = (λ i.
      if leb offset i && ltb i (offset + size) then region (i - offset) else k.live.bytes i) in
    let at : r ≡ record m { buffer = some c } = ground (arith, k.live.buffer) in
    let inside : offset + size ≤ m.size = ground arith in
    rw at (written-IsClean starting m c k λ i le. ground arith)
Step-IsClean starting m r (grows mprotect page_count) k =
    grow-IsClean starting mprotect m page_count k
Step-IsClean starting m r (stores n offset value r' inside e) k =
    let at : r ≡ record m { buffer = some (write_bytes k.live.bytes offset n value) } =
      ground (arith, k.live.buffer) in
    rw at (
      written-IsClean starting m _ k
        λ i le. write_bytes-outside k.live.bytes offset n value i (inr (omega arith)))

Session-IsClean :
    (starting : ℕ) (m r : WasmMemory) → Session m r → IsClean starting m → IsClean starting r
Session-IsClean starting m r begin k = k
Session-IsClean starting m r (onward {r = t} s step) k =
    Step-IsClean starting t r step (Session-IsClean starting m t s k)

-- A memory of `starting` bytes, new or recycled, is all zero again after any session and
-- wasm_memory_reinit: the next sandbox sees nothing of the last one, as long as the stores of the
-- module's code stay within the size.
pub reinit-IsFresh :
    (starting : ℕ) (m r : WasmMemory)
    → IsFresh starting m
    → Session m r
    → Returns (IsFresh starting) (WasmMemory.reinit r starting)
unfolding WasmMemory.reinit
reinit-IsFresh starting m r f s =
    let k = Session-IsClean starting m r s (record {
      live = f.live;
      starting = ground (arith, f.size, f.live.size);
      tail = λ i le. f.zeroed i;
    }) in
    let c : ℕ → ℕ = (λ i. if ltb i r.size then 0 else k.live.bytes i) in
    (
      record r { buffer = some c; size = starting },
      ground (arith, k.live.buffer, k.live.size, k.live.accessible),
      record {
        live = record {
          bytes = c;
          buffer = refl;
          size = k.starting;
          accessible = k.live.accessible;
          capacity = k.live.capacity;
          max = k.live.max;
        };
        size = refl;
        zeroed = λ i. ground (arith, k.tail i);
      },
    )

-- The stores of the module's code are held by the hardware only, to the capacity and not to the size:
-- a byte that one sandbox stores past the size of a memory with a larger capacity is still there
-- after wasm_memory_reinit, where the next sandbox loads it.
pub store-leaks :
    (m : WasmMemory) (offset value starting : ℕ)
    → IsLive m
    → m.size ≤ offset
    → offset < m.capacity
    → value < 256
    → Returns
        (λ s. Returns (λ r. WasmMemory.load 1 r offset ≡ ok value) (WasmMemory.reinit s starting))
        (WasmMemory.store 1 m offset value)
unfolding WasmMemory.store WasmMemory.reinit WasmMemory.touch WasmMemory.load write_bytes
    WasmMemory.read_bytes
store-leaks m offset value starting live past within small =
    let c : ℕ → ℕ = write_bytes live.bytes offset 1 value in
    (
      record m { buffer = some c },
      ground (arith, live.buffer, live.accessible),
      (
        record m { buffer = some (λ i. if ltb i m.size then 0 else c i); size = starting },
        ground (arith, live.size, live.accessible),
        ground (arith, live.accessible),
      ),
    )
