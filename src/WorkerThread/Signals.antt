-- ===== src/WorkerThread/Signals.antt =====
-- The signals that reach a worker, and the calls by which the current sandbox gives up the processor:
-- runtime/src/software_interrupt.c and runtime/src/current_sandbox.c. That a signal from the kernel is
-- passed on to the other workers changes nothing of this one.
use sledge_serverless_framew.Base.{
  ℕ, ◌+◌, ◌-◌, true, false, ◌||◌, none, some, Run, ok, fault, panicked, assertion, ◌>>=◌, ◌>>◌,
  assert, ◌==◌, if◌then◌else◌, update,
}
use sledge_serverless_framew.Fifo
use sledge_serverless_framew.Fifo.Links.{PsList}
use sledge_serverless_framew.Sandbox.{returned, running_sys, running_user, index, Sandbox}
use sledge_serverless_framew.Sandbox.Transitions.{
  assert_state, sandbox_sleep, sandbox_syscall, sandbox_interrupt, sandbox_exit_success,
  sandbox_exit_error, set_as_returned,
}
use sledge_serverless_framew.WorkerThread.{Machine, Environment, apply}
use sledge_serverless_framew.WorkerThread.Dispatch.{preemptive_sched, cooperative_sched}

module _ {H : Type 0} (ps : PsList H) (env : Environment) where
  abbrev with_current : Machine H → (ℕ → Run (Machine H)) → Run (Machine H)
  with_current m f = elim m.worker.current [ none ↦ fault assertion | some id ↦ f id ]

  -- current_sandbox_sleep
  unfoldable pub sleep : Machine H → Run (Machine H)
  sleep m = with_current m (λ id. elim (m.sandboxes id).state [
    | running_sys ↦ (do
      m₁ ← apply env (λ now w s. sandbox_sleep (Fifo.list_config ps) env.config now w s) id m
      cooperative_sched ps env false m₁)
    | _ ↦ fault panicked
  ])

  -- current_sandbox_exit
  unfoldable pub exit : Machine H → Run (Machine H)
  exit m = with_current m (λ id. do
    m₁ ← elim (m.sandboxes id).state [
      | returned ↦ apply env (λ now w s. sandbox_exit_success env.config now w s) id m
      | running_sys ↦
          apply env (λ now w s. sandbox_exit_error (Fifo.list_config ps) env.config now w s) id m
      | _ ↦ fault panicked
    ]
    cooperative_sched ps env true m₁)

  -- current_sandbox_fini
  unfoldable pub fini : Machine H → Run (Machine H)
  fini m = with_current m (λ id. do
    m₁ ← apply env (λ now w s. sandbox_syscall env.config now w s) id m
    let now = env.later m₁.clock
    let s : Sandbox = m₁.sandboxes id
    let m₂ : Machine H = record m₁ {
      sandboxes =
          update m₁.sandboxes id (record s { completion = now; total_time = now - s.allocation });
      clock = now;
    }
    assert_state (m₂.sandboxes id) running_sys
    m₃ ←
        apply env (λ now w s. set_as_returned (Fifo.list_config ps) env.config now w s running_sys)
          id m₂
    exit m₃)

  -- current_sandbox_trap, whose jump lands in current_sandbox_wasm_trap_handler.
  unfoldable pub trap : Machine H → Run (Machine H)
  trap m = with_current m (λ id. do
    assert (
        index (m.sandboxes id).state == index running_user
        || index (m.sandboxes id).state == index running_sys)
    m₁ ← apply env (λ now w s. sandbox_syscall env.config now w s) id m
    exit m₁)

  -- The branch SIGALRM of software_interrupt_handle_signals.
  unfoldable pub handle_sigalrm : Machine H → Run (Machine H)
  handle_sigalrm m = do
    assert (m.handler_depth == 0)
    elim m.worker.current [
      | none ↦ ok m
      | some id ↦
          if index (m.sandboxes id).state == index running_user
          then (do
            m₁ ← apply env (λ now w s. sandbox_interrupt env.config now w s) id m
            preemptive_sched ps env m₁)
          else ok (record m {
            worker = record m.worker { deferred_sigalrm = m.worker.deferred_sigalrm + 1 };
          })
    ]

  -- The branches SIGFPE and SIGSEGV.
  unfoldable pub handle_fault : Machine H → Run (Machine H)
  handle_fault m = do
    assert (m.handler_depth == 0)
    elim m.worker.current [
      | none ↦ fault panicked
      | some id ↦
          if index (m.sandboxes id).state == index running_user then trap m else fault panicked
    ]
