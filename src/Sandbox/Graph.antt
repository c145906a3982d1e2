-- ===== src/Sandbox/Graph.antt =====
-- The diagram of the sandbox states in docs/sledge-states/states.dot, and the moves by
-- runtime/include/sandbox_set_as_*.h.
use sledge_serverless_framew.Base.{ℕ, ◌≡◌, ok, arith}
use sledge_serverless_framew.Sandbox.{
  State, uninitialized, initialized, runnable, preempted, running_sys, running_user, interrupted,
  asleep, returned, complete, error, Config, Sandbox, Worker, RunqueueConfig, bookkeep,
  state_history_append, free_linear_memory, respond,
}
use sledge_serverless_framew.Sandbox.Transitions.{
  set_as_initialized, set_as_runnable, set_as_returned, set_as_complete, set_as_error, error_from,
  set_as_asleep, set_as_running_sys, set_as_running_user, set_as_interrupted, interrupt_return,
  set_as_preempted, sandbox_sleep, sandbox_wakeup, sandbox_syscall, sandbox_return,
  sandbox_interrupt, sandbox_preempt, sandbox_exit_success, sandbox_exit_error,
}
use sledge_serverless_framew.Sandbox.Moves.{
  Move, move, initialize, dispatch, interrupt, return_to, fail,
}

-- The edges of states.dot, each once.
infix 40 ◌⟶◌
pub data ◌⟶◌ : State → State → Type 0 where
  initialization : uninitialized ⟶ initialized
  dispatching : initialized ⟶ runnable
  first_run : runnable ⟶ running_sys
  restoring : preempted ⟶ running_user
  sleeping : running_sys ⟶ asleep
  waking : asleep ⟶ runnable
  entering : running_user ⟶ running_sys
  leaving : running_sys ⟶ running_user
  interrupting : running_user ⟶ interrupted
  returning : interrupted ⟶ running_user
  preempting : interrupted ⟶ preempted
  finishing : running_sys ⟶ returned
  completing : returned ⟶ complete
  failing : running_sys ⟶ error
  aborting : initialized ⟶ error

ruleset edges = (
  initialization, dispatching, first_run, restoring, sleeping, waking, entering, leaving,
  interrupting, returning, preempting, finishing, completing, failing, aborting,
)

-- What the callers make sure of before a move that does not assert it.
abbrev pub Called : Move → State → Type 0
Called initialize state = state ≡ uninitialized
Called dispatch state = state ≡ initialized
Called interrupt state = state ≡ running_user
Called (return_to to) state = to ≡ running_user
Called fail state = state ≡ initialized
Called _ state = Unit

module _ {Q : Type 0} (queue : RunqueueConfig Q) (c : Config) (now : ℕ) (w : Worker Q)
    (s : Sandbox) where
  -- Every move that returns takes the sandbox along an edge of states.dot, if the caller has made
  -- sure of the state that the move does not assert: an uninitialized sandbox to initialize, an
  -- initialized one to make runnable or to fail in the preparation, and a sandbox in user code to
  -- interrupt and to return to.
  pub move-⟶ :
      (m : Move) {w' : Worker Q} {s' : Sandbox}
      → Called m s.state
      → move queue c now m w s ≡ ok (w', s')
      → s.state ⟶ s'.state
  unfolding move bookkeep state_history_append free_linear_memory respond set_as_initialized
      set_as_runnable set_as_returned set_as_complete set_as_error error_from set_as_asleep
      set_as_running_sys set_as_running_user set_as_interrupted interrupt_return set_as_preempted
      sandbox_sleep sandbox_wakeup sandbox_syscall sandbox_return sandbox_interrupt sandbox_preempt
      sandbox_exit_success sandbox_exit_error
  move-⟶ initialize e h = grind (arith, edges)
  move-⟶ dispatch e h = grind (arith, edges)
  move-⟶ interrupt e h = grind (arith, edges)
  move-⟶ (return_to t) e h = grind (arith, edges)
  move-⟶ fail e h = grind (arith, edges)
  move-⟶ _ e h = grind (arith, edges)
