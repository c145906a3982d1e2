-- ===== src/Sandbox/Time.antt =====
-- The time that a sandbox spends in its states adds up to its age (sandbox_set_as_*.h,
-- "State Change Bookkeeping").
use sledge_serverless_framew.Base.{ℕ, ◌+◌, ◌-◌, ◌^◌, ◌≤◌, ◌<◌, ◌≡◌, ok, arith}
use sledge_serverless_framew.Sandbox.Transitions.{
  set_as_initialized, set_as_runnable, set_as_returned, set_as_complete, set_as_error, error_from,
  set_as_asleep, set_as_running_sys, set_as_running_user, set_as_interrupted, interrupt_return,
  set_as_preempted, sandbox_sleep, sandbox_wakeup, sandbox_syscall, sandbox_return,
  sandbox_interrupt, sandbox_preempt, sandbox_exit_success, sandbox_exit_error,
}
use sledge_serverless_framew.Sandbox.Moves.{
  Move, move, initialize, dispatch, run, resume, sleep, wakeup, syscall, return, interrupt,
  return_to, preempt, finish, exit_success, exit_error, fail,
}
use sledge_serverless_framew.Sandbox.{
  free_linear_memory, respond, State, uninitialized, allocated, initialized, runnable, preempted,
  running_sys, running_user, interrupted, asleep, returned, complete, error, Config, Sandbox,
  Worker, RunqueueConfig, set_at, u64, bookkeep, state_history_append,
}

-- The sum of `duration_of_state` over the states.
unfoldable pub total : (State → ℕ) → ℕ
total f =
    f uninitialized
    + f allocated
    + f initialized
    + f runnable
    + f preempted
    + f running_sys
    + f running_user
    + f interrupted
    + f asleep
    + f returned
    + f complete
    + f error

pub total-set_at : (f : State → ℕ) (s : State) (v : ℕ) → total (set_at f s v) + f s ≡ total f + v
unfolding total
total-set_at f uninitialized v = omega arith
total-set_at f _ v = omega arith

pub le-total : (f : State → ℕ) (s : State) → f s ≤ total f
unfolding total
le-total f uninitialized = omega arith
le-total f _ = omega arith

-- All time since the allocation is booked.
abbrev pub IsTimed : Sandbox → Type 0
IsTimed s = total s.duration_of_state + s.allocation ≡ s.last_state_change

module _ {Q : Type 0} (queue : RunqueueConfig Q) (c : Config) (now : ℕ) (w : Worker Q)
    (s : Sandbox) where
  -- What a transition at time `now` leaves: all time until then is booked.
  abbrev pub Booked : Sandbox → Type 0
  Booked s' = IsTimed s' × (s'.last_state_change ≡ now) × (s'.allocation ≡ s.allocation)

  -- The 64-bit sum in `duration_of_state` does not wrap.
  booked :
      (last : State)
      → now < 2 ^ 64
      → IsTimed s
      → s.last_state_change ≤ now
      → total (
          set_at s.duration_of_state last
            (u64 (s.duration_of_state last + (now - s.last_state_change))))
        ≡ total s.duration_of_state + (now - s.last_state_change)
  booked last fits t le = ground (
    arith,
    total-set_at s.duration_of_state last
        (u64 (s.duration_of_state last + (now - s.last_state_change))),
    le-total s.duration_of_state last,
  )

  -- Every move of a sandbox keeps the time accounting: if the time since the allocation was booked to
  -- the states, it is so up to `now` after the move. The clock does not run backwards and `now` fits
  -- 64 bits.
  pub move-IsTimed :
      (m : Move) {w' : Worker Q} {s' : Sandbox}
      → now < 2 ^ 64
      → IsTimed s
      → s.last_state_change ≤ now
      → move queue c now m w s ≡ ok (w', s')
      → Booked s'
  unfolding move bookkeep state_history_append free_linear_memory respond set_as_initialized
      set_as_runnable set_as_returned set_as_complete set_as_error error_from set_as_asleep
      set_as_running_sys set_as_running_user set_as_interrupted interrupt_return set_as_preempted
      sandbox_sleep sandbox_wakeup sandbox_syscall sandbox_return sandbox_interrupt sandbox_preempt
      sandbox_exit_success sandbox_exit_error
  move-IsTimed initialize f t le h = ground (arith, booked allocated)
  move-IsTimed dispatch f t le h = ground (arith, booked initialized)
  move-IsTimed run f t le h = ground (arith, booked runnable)
  move-IsTimed resume f t le h = ground (arith, booked preempted)
  move-IsTimed sleep f t le h = ground (arith, booked running_sys)
  move-IsTimed wakeup f t le h = ground (arith, booked asleep)
  move-IsTimed syscall f t le h = ground (arith, booked running_user)
  move-IsTimed return f t le h = ground (arith, booked running_sys)
  move-IsTimed interrupt f t le h = ground (arith, booked s.state)
  move-IsTimed (return_to state) f t le h = ground (arith, booked interrupted)
  move-IsTimed preempt f t le h = ground (arith, booked interrupted)
  move-IsTimed finish f t le h = ground (arith, booked running_sys)
  move-IsTimed exit_success f t le h = ground (arith, booked returned)
  move-IsTimed exit_error f t le h = ground (arith, booked running_sys)
  move-IsTimed fail f t le h = ground (arith, booked allocated)
