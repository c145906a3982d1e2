-- ===== src/WorkerThread/Dispatch.antt =====
-- The switches between contexts and the two schedulers (runtime/include/scheduler.h, and
-- arch/context.h, arch/x86_64/context.h). A switch comes back when its context is switched to
-- again; the model gives the machine as the next context takes over.
use sledge_serverless_framew.Base.{
  ℕ, Bool, ◌||◌, not, Option, none, some, Run, ok, fault, panicked, assertion, ◌>>=◌, ◌>>◌, assert,
  ◌==◌, if◌then◌else◌, update,
}
use sledge_serverless_framew.Fifo
use sledge_serverless_framew.Fifo.Links.{PsList}
use sledge_serverless_framew.Sandbox.{runnable, preempted, running_user, interrupted}
use sledge_serverless_framew.Sandbox.Transitions.{
  assert_state, set_as_running_sys, set_as_running_user, interrupt_return, sandbox_preempt,
}
use sledge_serverless_framew.WorkerThread.{
  Variant, fast, slow, running, variant_index, Machine, Environment, is_some, same_sandbox, apply,
  clear_current, set_current, write_back, fifo_get_next, cleanup_queue_free,
}

abbrev pub is_variant : Variant → Variant → Bool
is_variant v w = variant_index v == variant_index w

module _ {H : Type 0} where
  -- The variant of a context, `none` for the base context.
  abbrev pub variant_of : Machine H → Option ℕ → Variant
  variant_of m none = m.base_variant
  variant_of m (some id) = m.variant id

  abbrev pub set_variant : Option ℕ → Variant → Machine H → Machine H
  set_variant none v m = record m { base_variant = v }
  set_variant (some id) v m = record m { variant = update m.variant id v }

module _ {H : Type 0} (ps : PsList H) (env : Environment) where
  -- scheduler_preemptive_switch_to, with arch_context_restore_fast and arch_context_restore_slow.
  unfoldable pub preemptive_switch_to : ℕ → Machine H → Run (Machine H)
  preemptive_switch_to next m = elim (m.variant next) [
    | fast ↦ (do
      assert_state (m.sandboxes next) runnable
      m₁ ← set_current next (set_variant (some next) running m)
      apply env (λ now w s. set_as_running_sys env.config now w s runnable) next m₁)
    | slow ↦ (do
      assert_state (m.sandboxes next) preempted
      m₁ ← set_current next (set_variant (some next) running m)
      apply env (λ now w s. set_as_running_user env.config now w s preempted) next m₁)
    | _ ↦ fault panicked
  ]

  -- The branch SIGUSR1 of software_interrupt_handle_signals, which the switch to a slow context raises.
  unfoldable pub handle_sigusr1 : Machine H → Run (Machine H)
  handle_sigusr1 m = do
    assert (m.handler_depth == 0)
    elim m.worker.current [
      | none ↦ fault assertion
      | some current ↦ (do
        assert_state (m.sandboxes current) preempted
        assert (is_variant (m.variant current) slow)
        preemptive_switch_to current m)
    ]

  -- arch_context_switch, from the context `a` to the context `b`.
  unfoldable pub context_switch : Option ℕ → Option ℕ → Machine H → Run (Machine H)
  context_switch a b m = do
    assert (not (same_sandbox a b))
    assert (is_variant (variant_of m a) running)
    assert (is_variant (variant_of m b) fast || is_variant (variant_of m b) slow)
    let m₁ : Machine H = set_variant a fast m
    if is_variant (variant_of m b) slow then handle_sigusr1 m₁ else ok (set_variant b running m₁)

  unfoldable pub cooperative_switch_to : Option ℕ → ℕ → Machine H → Run (Machine H)
  cooperative_switch_to current next m = do
    assert (not (is_some m.worker.current))
    m₁ ← elim (m.sandboxes next).state [
      | runnable ↦ (do
        assert (is_variant (m.variant next) fast)
        m' ← set_current next m
        apply env (λ now w s. set_as_running_sys env.config now w s runnable) next m')
      | preempted ↦ (do assert (is_variant (m.variant next) slow); set_current next m)
      | _ ↦ fault panicked
    ]
    context_switch current (some next) m₁

  unfoldable pub switch_to_base_context : Option ℕ → Machine H → Run (Machine H)
  switch_to_base_context current m = do
    assert (is_variant m.base_variant fast)
    context_switch current none m

  -- One round of scheduler_idle_loop: a switch, or the cleanup of an idle worker.
  unfoldable pub idle_round : Machine H → Run (Machine H)
  idle_round m = do
    assert (not (is_some m.worker.current))
    assert (m.worker.deferred_sigalrm == 0)
    (m₁, next) ← fifo_get_next ps env m
    elim next [ none ↦ cleanup_queue_free ps m₁ | some id ↦ cooperative_switch_to none id m₁ ]

  -- scheduler_preemptive_sched
  unfoldable pub preemptive_sched : Machine H → Run (Machine H)
  preemptive_sched m = elim m.worker.current [
    | none ↦ fault assertion
    | some current ↦ (do
      assert_state (m.sandboxes current) interrupted
      (m₁, chosen) ← fifo_get_next ps env m
      elim chosen [
        | none ↦ fault assertion
        | some next ↦
            if current == next
            then apply env (λ now w s. interrupt_return env.config now w s running_user) current m₁
            else (do
              m₂ ← apply env (λ now w s. sandbox_preempt env.config now w s) current m₁
              m₃ ← write_back env current m₂
              assert (is_variant (m₃.variant current) running)
              preemptive_switch_to next (set_variant (some current) slow m₃))
      ])
  ]

  -- scheduler_cooperative_sched. The deferred signals are cleared without a replay.
  unfoldable pub cooperative_sched : Bool → Machine H → Run (Machine H)
  cooperative_sched add_to_cleanup_queue m = elim m.worker.current [
    | none ↦ fault assertion
    | some exiting ↦ (do
      let m₁ : Machine H = clear_current m
      let m₂ : Machine H = record m₁ { worker = record m₁.worker { deferred_sigalrm = 0 } }
      m₃ ← cleanup_queue_free ps m₂
      (m₄, next) ← fifo_get_next ps env m₃
      if same_sandbox next (some exiting)
          then (do
            m₅ ← apply env (λ now w s. set_as_running_sys env.config now w s runnable) exiting m₄
            set_current exiting m₅)
          else (do
            m₅ ← write_back env exiting m₄
            queue ←
                (if add_to_cleanup_queue
                  then Fifo.cleanup_add ps m₅.worker.runqueue exiting
                  else ok m₅.worker.runqueue)
            let m₆ : Machine H = record m₅ { worker = record m₅.worker { runqueue = queue } }
            elim next [
              | none ↦ switch_to_base_context (some exiting) m₆
              | some id ↦ cooperative_switch_to (some exiting) id m₆
            ]))
  ]
