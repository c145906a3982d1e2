-- ===== src/WasmMemory/Fresh.antt =====
-- A new linear memory (runtime/include/wasm_memory.h).
use sledge_serverless_framew.Base.{
  ℕ, ◌^◌, ◌≤◌, ◌<◌, ◌≡◌, refl, Bool, true, false, ◌&&◌, none, some, ◌⊎◌, inl, inr, arith, Returns,
  Bool-cases,
}
use sledge_serverless_framew.WasmMemory
use sledge_serverless_framew.WasmMemory.{WasmMemory}
use sledge_serverless_framew.WasmMemory.Access.{IsLive}

-- What a new memory of `starting` bytes is: live, all zero.
pub record IsFresh (starting : ℕ) (m : WasmMemory) : Type 0 where
  pub live : IsLive m
  pub size : m.size ≡ starting
  pub zeroed : (i : ℕ) → live.bytes i ≡ 0

-- wasm_memory_init within the bounds of its assertions returns: 0 and a fresh memory of `initial`
-- bytes, or -1 if mmap or mprotect fails.
pub init-IsFresh :
    (mmap mprotect : Bool) (m : WasmMemory) (initial max : ℕ)
    → 0 < initial
    → initial ≤ 2 ^ 32
    → 0 < max
    → max ≤ 2 ^ 32
    → Returns
        (λ r.
          (((mmap && mprotect) ≡ true)
            × (r.1 ≡ WasmMemory.done)
            × IsFresh initial r.0
            × (r.0.max ≡ max))
          ⊎ (((mmap && mprotect) ≡ false) × (r.1 ≡ WasmMemory.failed)))
        (WasmMemory.init mmap mprotect m initial max)
unfolding WasmMemory.init
init-IsFresh mmap mprotect m initial max a b c d = elim (Bool-cases (mmap && mprotect)) [
  | inl e ↦ (
    (
      record {
        buffer = some (λ i. 0);
        accessible = initial;
        size = initial;
        capacity = initial;
        max = max;
      },
      WasmMemory.done,
    ),
    ground arith,
    inl (
      e,
      refl,
      record {
        live = record {
          bytes = λ i. 0;
          buffer = refl;
          size = omega arith;
          accessible = refl;
          capacity = b;
          max = d;
        };
        size = refl;
        zeroed = λ i. refl;
      },
      refl,
    ),
  )
  | inr e ↦ ((record m { buffer = none }, WasmMemory.failed), ground arith, inr (e, refl))
]
