-- ===== src/WasmMemory/Tests.antt =====
-- Runs of a linear memory (runtime/include/wasm_memory.h), and its theorems at concrete ones.
use sledge_serverless_framew.Base.{
  ℕ, ◌+◌, ◌*◌, ◌/◌, ◌≤◌, ◌<◌, ◌≡◌, refl, false, ok, arith, Returns, ◌⊎◌, none, some,
}
use sledge_serverless_framew.WasmMemory
use sledge_serverless_framew.WasmMemory.{WasmMemory, page_size, write_bytes}
use sledge_serverless_framew.WasmMemory.Access.{IsLive, get-set}
use sledge_serverless_framew.WasmMemory.Fresh.{IsFresh}
use sledge_serverless_framew.WasmMemory.Bounds.{grow_correct}
use sledge_serverless_framew.WasmMemory.Recycle.{
  Session, stores, begin, onward, reinit-IsFresh, store-leaks,
}

-- One page, of a memory that had two before.
abbrev sample : WasmMemory
sample = record {
  buffer = some (λ i. 0);
  accessible = 131072;
  size = 65536;
  capacity = 131072;
  max = 262144;
}

abbrev sample-IsLive : IsLive sample
sample-IsLive = record {
  bytes = λ i. 0;
  buffer = refl;
  size = omega arith;
  accessible = refl;
  capacity = omega arith;
  max = omega arith;
}

get-set_example :
    Returns
      (λ r.
        (r.size ≡ 65536)
        × (WasmMemory.get 4 r 100 ≡ ok 123456789)
        × ((k other : ℕ)
            → other + k ≤ 65536
            → (other + k ≤ 100) ⊎ (100 + 4 ≤ other)
            → WasmMemory.get k r other ≡ WasmMemory.get k sample other))
      (WasmMemory.set 4 sample 100 123456789)
get-set_example = get-set sample sample-IsLive 4 100 123456789 (omega arith) (omega arith)

grow_correct_example :
    let r = WasmMemory.grow false sample 1 in
    IsLive r.0
    × ((((262144 < 65536 + 1 * page_size) ⊎ ((131072 < 65536 + 1 * page_size) × (false ≡ false)))
          × (r ≡ (sample, none)))
        ⊎ ((65536 + 1 * page_size ≤ 262144)
            × (r.1 ≡ some (65536 / page_size))
            × (r.0.size ≡ 65536 + 1 * page_size)
            × (r.0.buffer ≡ some (λ i. 0))))
grow_correct_example = grow_correct false sample 1 sample-IsLive (omega arith)

-- A session that writes one byte.
abbrev written : WasmMemory
written = record sample { buffer = some (write_bytes (λ i. 0) 8 1 255) }

session : Session sample written
unfolding WasmMemory.store WasmMemory.touch
session = onward begin (stores 1 8 255 written (omega arith) refl)

reinit-IsFresh_example : Returns (IsFresh 65536) (WasmMemory.reinit written 65536)
reinit-IsFresh_example =
    reinit-IsFresh 65536 sample written
      (record { live = sample-IsLive; size = refl; zeroed = λ i. refl }) session

store-leaks_example :
    Returns
      (λ s. Returns (λ r. WasmMemory.load 1 r 70000 ≡ ok 42) (WasmMemory.reinit s 65536))
      (WasmMemory.store 1 sample 70000 42)
store-leaks_example =
    store-leaks sample 70000 42 65536 sample-IsLive (omega arith) (omega arith) (omega arith)
