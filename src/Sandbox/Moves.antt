-- ===== src/Sandbox/Moves.antt =====
-- The moves by which a worker takes a sandbox through its life, each with the assertion that its
-- caller makes (runtime/src/sandbox.c, current_sandbox.c and include/scheduler.h).
use sledge_serverless_framew.Base.{ℕ, Run, ◌>>◌}
use sledge_serverless_framew.Sandbox.{
  State, allocated, initialized, runnable, preempted, running_sys, interrupted, Config, Sandbox,
  Worker, RunqueueConfig,
}
use sledge_serverless_framew.Sandbox.Transitions.{
  assert_state, set_as_initialized, set_as_runnable, set_as_running_sys, set_as_running_user,
  set_as_returned, set_as_error, sandbox_sleep, sandbox_wakeup, sandbox_syscall, sandbox_return,
  sandbox_interrupt, interrupt_return, sandbox_preempt, sandbox_exit_success, sandbox_exit_error,
}

pub data Move : Type 0 where
  initialize dispatch run resume sleep wakeup syscall return interrupt : Move
  return_to : State → Move
  preempt finish exit_success exit_error fail : Move

module _ {Q : Type 0} (queue : RunqueueConfig Q) (c : Config) (now : ℕ) where
  unfoldable pub move : Move → Worker Q → Sandbox → Run (Worker Q × Sandbox)
  move initialize w s = set_as_initialized c now w s allocated
  -- Of the callers, scheduler_edf_get_next asserts the state, and scheduler_fifo_get_next does not.
  move dispatch w s = set_as_runnable queue c now w s initialized
  move run w s = assert_state s runnable >> set_as_running_sys c now w s runnable
  move resume w s = assert_state s preempted >> set_as_running_user c now w s preempted
  move sleep w s = sandbox_sleep queue c now w s
  move wakeup w s = sandbox_wakeup queue c now w s
  move syscall w s = sandbox_syscall c now w s
  move return w s = sandbox_return c now w s
  move interrupt w s = sandbox_interrupt c now w s
  move (return_to state) w s = assert_state s interrupted >> interrupt_return c now w s state
  move preempt w s = sandbox_preempt c now w s
  move finish w s = assert_state s running_sys >> set_as_returned queue c now w s running_sys
  move exit_success w s = sandbox_exit_success c now w s
  move exit_error w s = sandbox_exit_error queue c now w s
  -- The error exit of `sandbox_prepare_execution_environment`, which makes no assertion.
  move fail w s = set_as_error queue c now w s allocated
