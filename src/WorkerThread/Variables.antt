-- ===== src/WorkerThread/Variables.antt =====
-- The global variables of a module: libsledge/src/variable_instructions.c, and the entry points for
-- them in runtime/src/sledge_abi.c. Global 0 is kept in the module instance while its sandbox runs.
use sledge_serverless_framew.Base.{
  ℕ, ◌+◌, ◌-◌, ◌%◌, ◌^◌, Bool, true, Option, none, some, Run, ok, fault, null_pointer, ◌>>=◌, ◌==◌,
  ltb, if◌then◌else◌, update,
}
use sledge_serverless_framew.Globals
use sledge_serverless_framew.Globals.{Global, Rc, done, out_of_range, mismatched, zeroed, is_unused}
use sledge_serverless_framew.Globals.Vector.{Vec}
use sledge_serverless_framew.Globals.Table.{Wasm, value, trap, invalid_index, mismatched_type}
use sledge_serverless_framew.Sandbox.Transitions.{sandbox_syscall, sandbox_return}
use sledge_serverless_framew.WorkerThread.{Machine, Environment, apply}

-- The traps that an entry point raises for a return code.
abbrev pub raised {ℓ} : {A : Type ℓ} → Rc → A → Wasm A
raised done result = value result
raised out_of_range result = trap invalid_index
raised mismatched result = trap mismatched_type

-- An `int32_t` as an `uint64_t`.
abbrev pub sign_extend : ℕ → ℕ
sign_extend v = if ltb (v % 2 ^ 32) (2 ^ 31) then v % 2 ^ 32 else v % 2 ^ 32 + (2 ^ 64 - 2 ^ 32)

module _ {H : Type 0} (env : Environment) where
  -- What every entry point does around its work on the globals of the current sandbox.
  abbrev pub in_runtime {ℓ} :
      {A : Type ℓ} → (Vec Global → Run (Vec Global × A)) → Machine H → Run (Machine H × A)
  in_runtime work m = elim m.worker.current [
    | none ↦ fault null_pointer
    | some id ↦ (do
      m₁ ← apply env (λ now w s. sandbox_syscall env.config now w s) id m
      (globals, result) ← work (m₁.globals id)
      m₂ ←
          apply env (λ now w s. sandbox_return env.config now w s) id
            (record m₁ { globals = update m₁.globals id globals })
      ok (m₂, result))
  ]

  -- The result of the getters: an uninitialized variable holds `junk` if it is not written.
  abbrev read_by :
      (Vec Global → ℕ → Run (Rc × Option ℕ)) → ℕ → ℕ → Machine H → Run (Machine H × Wasm ℕ)
  read_by get junk idx m = do
    (m', (rc, found)) ← in_runtime (λ globals. do out ← get globals idx; ok (globals, out)) m
    ok (m', raised rc (elim found [ none ↦ junk | some v ↦ v ]))

  module _ (junk : ℕ) where
    unfoldable pub wasm_globals_get_i32 : ℕ → Machine H → Run (Machine H × Wasm ℕ)
    wasm_globals_get_i32 idx m = read_by Globals.get_i32 junk idx m

    unfoldable pub wasm_globals_get_i64 : ℕ → Machine H → Run (Machine H × Wasm ℕ)
    wasm_globals_get_i64 idx m = read_by Globals.get_i64 junk idx m

    unfoldable pub get_global_i32 : ℕ → Machine H → Run (Machine H × Wasm ℕ)
    get_global_i32 idx m =
        if idx == 0 then ok (m, value (m.wasmg_0 % 2 ^ 32)) else wasm_globals_get_i32 idx m

    unfoldable pub get_global_i64 : ℕ → Machine H → Run (Machine H × Wasm ℕ)
    get_global_i64 idx m = if idx == 0 then ok (m, value m.wasmg_0) else wasm_globals_get_i64 idx m

  abbrev written_by :
      (Vec Global → ℕ → ℕ → Bool → Run (Vec Global × Rc))
      → ℕ
      → ℕ
      → Machine H
      → Run (Machine H × Wasm (Unit {0}))
  written_by set idx v m = do
    (m', rc) ← in_runtime (λ globals. set globals idx v true) m
    ok (m', raised rc tt)

  unfoldable pub wasm_globals_set_i32 : ℕ → ℕ → Machine H → Run (Machine H × Wasm (Unit {0}))
  wasm_globals_set_i32 idx v m = written_by (Globals.set_i32 true (λ i. zeroed) env.upper) idx v m

  unfoldable pub wasm_globals_set_i64 : ℕ → ℕ → Machine H → Run (Machine H × Wasm (Unit {0}))
  wasm_globals_set_i64 idx v m = written_by (Globals.set_i64 true (λ i. zeroed) env.upper) idx v m

  unfoldable pub set_global_i32 : ℕ → ℕ → Machine H → Run (Machine H × Wasm (Unit {0}))
  set_global_i32 idx v m =
      if idx == 0
      then ok (record m { wasmg_0 = sign_extend v }, value tt)
      else wasm_globals_set_i32 idx v m

  unfoldable pub set_global_i64 : ℕ → ℕ → Machine H → Run (Machine H × Wasm (Unit {0}))
  set_global_i64 idx v m =
      if idx == 0 then ok (record m { wasmg_0 = v }, value tt) else wasm_globals_set_i64 idx v m
