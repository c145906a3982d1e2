-- ===== src/WorkerThread.antt =====
-- A worker thread under the FIFO policy: the sandboxes on it, their contexts and globals, the module
-- instance, and the global request queue (runtime/src/worker_thread.c, current_sandbox.c, sandbox.c,
-- local_cleanup_queue.c and runtime/include/scheduler.h, current_sandbox.h, arch/context.h).
-- A sandbox is its address, and the links between sandboxes are `H`.
pub mod Dispatch
pub mod Signals
pub mod Variables
pub mod Frame
pub mod Serving
pub mod Preempt
pub mod RoundRobin
pub mod Alarms
pub mod Lost
pub mod Failed
mod Tests
use sledge_serverless_framew.Base.{
  ℕ, ◌+◌, ◌-◌, ◌^◌, Bool, true, false, ◌&&◌, ◌||◌, not, Option, none, some, List, [], ◌∷◌, Run, ok,
  fault, panicked, null_pointer, ◌>>=◌, ◌>>◌, assert, ◌==◌, if◌then◌else◌, update,
}
use sledge_serverless_framew.Deque
use sledge_serverless_framew.Deque.{Deque, done}
use sledge_serverless_framew.Fifo
use sledge_serverless_framew.Fifo.Links.{cleanup, PsList}
use sledge_serverless_framew.Globals
use sledge_serverless_framew.Globals.{Global, zeroed}
use sledge_serverless_framew.Globals.Vector
use sledge_serverless_framew.Globals.Vector.{Vec}
use sledge_serverless_framew.Sandbox.{
  State, initialized, allocated, complete, error, index, Config, Sandbox, Worker,
}
use sledge_serverless_framew.Sandbox.Transitions.{set_as_runnable, set_as_error}

-- `arch_context_variant_t`
pub data Variant : Type 0 where
  unused fast slow running : Variant

abbrev pub variant_index : Variant → ℕ
variant_index unused = 0
variant_index fast = 1
variant_index slow = 2
variant_index running = 3

-- What the allocations of sandbox_prepare_execution_environment come to: the first that fails.
pub data Allocation : Type 0 where
  all_there no_response_body no_globals no_memory no_stack : Allocation

-- `module_instance` is the sandbox whose memory, table and WASI context are in
-- `sledge_abi__current_wasm_module_instance`, and `wasmg_0` its global 0. `requests` is the global
-- deque, `base_variant` belongs to `worker_thread_base_context`, `clock` is the last
-- `__getcycles()`, and `handler_depth` is what it is outside the handler, which leaves it as it
-- was.
pub record Machine (H : Type 0) : Type 0 where
  pub worker : Worker H
  pub sandboxes : ℕ → Sandbox
  pub variant : ℕ → Variant
  pub base_variant : Variant
  pub globals : ℕ → Vec Global
  pub module_instance : Option ℕ
  pub wasmg_0 : ℕ
  pub requests : Deque
  pub freed : ℕ → Bool
  pub handler_depth : ℕ
  pub clock : ℕ

-- What is not the worker's: the next `__getcycles()`, the allocations, the number of globals of a
-- sandbox's module, and what the C compiler leaves in the upper half of a global.
pub record Environment : Type 0 where
  pub config : Config
  pub later : ℕ → ℕ
  pub allocation : ℕ → Allocation
  pub globals_len : ℕ → ℕ
  pub upper : ℕ

abbrev pub is_some {ℓ} : {A : Type ℓ} → Option A → Bool
is_some none = false
is_some (some _) = true

abbrev pub same_sandbox : Option ℕ → Option ℕ → Bool
same_sandbox none none = true
same_sandbox (some i) (some j) = i == j
same_sandbox _ _ = false

module _ {H : Type 0} where
  -- current_sandbox_set(NULL)
  unfoldable pub clear_current : Machine H → Machine H
  clear_current m = record m {
    worker = record m.worker { current = none; deadline = 2 ^ 64 - 1 };
    module_instance = none;
    wasmg_0 = 0;
  }

  -- current_sandbox_set of a sandbox
  unfoldable pub set_current : ℕ → Machine H → Run (Machine H)
  set_current id m = do
    let sandbox = m.sandboxes id
    if sandbox.memory then ok tt else fault null_pointer
    value ← Globals.update_if_used (m.globals id) 0 m.wasmg_0
    ok (record m {
      worker = record m.worker { current = some id; deadline = sandbox.absolute_deadline };
      module_instance = some id;
      wasmg_0 = value;
    })

  abbrev state_of : Machine H → ℕ → State
  state_of m id = (m.sandboxes id).state

  abbrev with_memory : ℕ → Machine H → Machine H
  with_memory id m = record m {
    sandboxes = update m.sandboxes id (record (m.sandboxes id) { memory = true });
  }

module _ {H : Type 0} (env : Environment) where
  -- A transition of a sandbox, at the next reading of the clock.
  unfoldable pub apply :
      (ℕ → Worker H → Sandbox → Run (Worker H × Sandbox)) → ℕ → Machine H → Run (Machine H)
  apply transition id m = do
    let now = env.later m.clock
    (w, s) ← transition now m.worker (m.sandboxes id)
    ok (record m { worker = w; sandboxes = update m.sandboxes id s; clock = now })

  -- `wasm_globals_set_i64(&sandbox->globals, 0, …wasmg_0, true)`, whose result nobody reads. The vector
  -- never grows here, since its length stays 0.
  unfoldable pub write_back : ℕ → Machine H → Run (Machine H)
  write_back id m = do
    (globals, _) ← Globals.set_i64 true (λ i. zeroed) env.upper (m.globals id) 0 m.wasmg_0 true
    ok (record m { globals = update m.globals id globals })

  -- The globals of a sandbox, once they are allocated.
  abbrev with_globals : ℕ → Machine H → Machine H
  with_globals id m = record m {
    globals = elim (Vector.init false zeroed (env.globals_len id)) [
      | none ↦ m.globals
      | some vec ↦ update m.globals id vec
    ];
  }

module _ {H : Type 0} (ps : PsList H) (env : Environment) where
  -- The error exit.
  unfoldable pub abandon : ℕ → Machine H → Run (Machine H)
  abandon id m =
      apply env (λ now w s. set_as_error (Fifo.list_config ps) env.config now w s allocated) id m

  -- sandbox_prepare_execution_environment; the second component tells of -1.
  unfoldable pub prepare_execution_environment : ℕ → Machine H → Run (Machine H × Bool)
  prepare_execution_environment id m = elim (env.allocation id) [
    | all_there ↦
        let m' = with_memory id (with_globals env id m) in
        ok (record m' { variant = update m.variant id fast }, false)
    | no_response_body ↦ (do m' ← abandon id m; ok (m', true))
    | no_globals ↦ (do m' ← abandon id m; ok (m', true))
    | no_memory ↦ (do m' ← abandon id (with_globals env id m); ok (m', true))
    | no_stack ↦ (do m' ← abandon id (with_memory id (with_globals env id m)); ok (m', true))
  ]

  -- The sandbox at the head of the runqueue, as every path of the policy returns it.
  abbrev head_of : Machine H → Machine H × Option ℕ
  head_of m = (m, Fifo.get_next ps m.worker.runqueue)

  -- global_request_scheduler_remove, and what follows it if it gives a request. That the preparation
  -- failed is not looked at.
  unfoldable pub pull : Machine H → Run (Machine H)
  pull m = do
    (requests, rc, item) ← Deque.steal m.requests
    let m' : Machine H = record m { requests = requests }
    elim rc [
      | done ↦ elim item [
        | none ↦ fault null_pointer
        | some id ↦ (do
          (m'', _) ← prepare_execution_environment id m'
          apply env
              (λ now w s. set_as_runnable (Fifo.list_config ps) env.config now w s initialized) id
              m'')
      ]
      | _ ↦ ok m'
    ]

  unfoldable pub fifo_get_next : Machine H → Run (Machine H × Option ℕ)
  fifo_get_next m = elim (Fifo.get_next ps m.worker.runqueue) [
    | none ↦ (do m' ← pull m; ok (head_of m'))
    | some local ↦
        if same_sandbox (some local) m.worker.current
        then (do
          queue ← Fifo.rotate ps (state_of m) m.worker.runqueue
          ok (head_of (record m { worker = record m.worker { runqueue = queue } })))
        else ok (head_of m)
  ]

module _ {H : Type 0} where
  -- sandbox_free, with sandbox_deinit.
  unfoldable pub sandbox_free : ℕ → Machine H → Run (Machine H)
  sandbox_free id m = do
    let s = m.sandboxes id
    assert (not (same_sandbox (some id) m.worker.current))
    assert (index s.state == index error || index s.state == index complete)
    assert (not (is_some s.http))
    assert (not s.memory)
    globals ← Vector.deinit (m.globals id)
    ok (record m { globals = update m.globals id globals; freed = update m.freed id true })

module _ {H : Type 0} (ps : PsList H) where
  unfoldable pub free_all : List ℕ → Machine H → Run (Machine H)
  free_all [] m = ok m
  free_all (id ∷ ids) m = do
    let w : Worker H = record m.worker { runqueue = ps.rem m.worker.runqueue id }
    m' ← sandbox_free id (record m { worker = w })
    free_all ids m'

  -- local_cleanup_queue_free
  unfoldable pub cleanup_queue_free : Machine H → Run (Machine H)
  cleanup_queue_free m = free_all (ps.visited m.worker.runqueue cleanup) m
