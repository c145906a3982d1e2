-- ===== src/Sandbox/Transitions.antt =====
-- The transitions between the states of a sandbox, runtime/include/sandbox_set_as_*.h.
-- The hooks of sandbox_state_transition.c are the default ones, which do nothing.
use sledge_serverless_framew.Base.{
  ℕ, ◌+◌, ◌-◌, ◌^◌, false, not, none, some, [], ◌∷◌, ◌++◌, Run, ok, fault, panicked, ◌>>=◌, ◌>>◌,
  assert, ltb, ◌==◌, if◌then◌else◌,
}
use sledge_serverless_framew.Sandbox.{
  State, uninitialized, allocated, initialized, runnable, preempted, running_sys, running_user,
  interrupted, asleep, returned, complete, error, index, Config, Sandbox, Worker, RunqueueConfig,
  set_at, u64, admissions_info_update, route_latency_add, state_history_append, totals_increment,
  totals_decrement, bookkeep, admissions_control_subtract, process_scheduler_updates,
  free_linear_memory, respond, deferred_sigalrm_replay,
}

-- `assert(sandbox->state == state)`
abbrev pub assert_state : Sandbox → State → Run (Unit {0})
assert_state s state = assert (index s.state == index state)

-- `assert(sandbox == current_sandbox_get())` and the worker's deadline.
abbrev pub assert_current : {Q : Type 0} → Worker Q → Sandbox → Run (Unit {0})
assert_current w s = do
  assert (elim w.current [ none ↦ false | some id ↦ id == s.id ])
  assert (w.deadline == s.absolute_deadline)

module _ {Q : Type 0} (c : Config) (now : ℕ) (w : Worker Q) (s : Sandbox) where
  -- The state itself stays SANDBOX_UNINITIALIZED, as in the source.
  unfoldable pub set_as_allocated : Run (Worker Q × Sandbox)
  set_as_allocated = do
    assert_state s uninitialized
    assert (ltb s.last_state_change now)
    let s₁ : Sandbox = record s {
      allocation = now;
      last_state_change = now;
      state_history = if c.log_state_changes then [] else s.state_history;
    }
    ok (totals_increment c w allocated, state_history_append c s₁ allocated)

  unfoldable pub set_as_initialized : State → Run (Worker Q × Sandbox)
  set_as_initialized last = elim last [
    | allocated ↦ bookkeep c now allocated initialized w (record s { state = initialized })
    | _ ↦ fault panicked
  ]

  unfoldable pub set_as_running_sys : State → Run (Worker Q × Sandbox)
  set_as_running_sys last =
      let s₁ : Sandbox = record s { state = running_sys } in
      elim last [
        | running_user ↦ assert_current w s₁ >> bookkeep c now running_user running_sys w s₁
        | runnable ↦ bookkeep c now runnable running_sys w s₁
        | _ ↦ fault panicked
      ]

  -- The state is written last, when the sandbox becomes preemptable.
  unfoldable pub set_as_running_user : State → Run (Worker Q × Sandbox)
  set_as_running_user last = do
    elim last [ running_sys ↦ assert_current w s | preempted ↦ ok tt | _ ↦ fault panicked ]
    (w₁, s₁) ← bookkeep c now last running_user w s
    let w₂ : Worker Q =
        if index last == index running_sys then process_scheduler_updates w₁ s₁ else w₁
    ok (deferred_sigalrm_replay w₂, record s₁ { state = running_user })

  unfoldable pub set_as_interrupted : State → Run (Worker Q × Sandbox)
  set_as_interrupted last = do
    -- SANDBOX_INTERRUPTED is not appended to the history.
    let s₁ : Sandbox = record s { state = interrupted }
    assert (ltb s.last_state_change now)
    let spent = now - s.last_state_change
    w₁ ← totals_decrement c (totals_increment c w interrupted) last
    ok (
      w₁,
      record s₁ {
        last_state_duration = spent;
        duration_of_state =
            set_at s.duration_of_state last (u64 (s.duration_of_state last + spent));
        last_state_change = now;
      },
    )

  unfoldable pub interrupt_return : State → Run (Worker Q × Sandbox)
  interrupt_return interrupted_state = do
    assert (not (index interrupted_state == index interrupted))
    w₁ ← totals_decrement c (totals_increment c w interrupted_state) interrupted
    ok (
      w₁,
      record s {
        state = interrupted_state;
        duration_of_state =
            set_at s.duration_of_state interrupted
              (u64 (s.duration_of_state interrupted + u64 (now + 2 ^ 64 - s.last_state_change)));
        last_state_change = now;
      },
    )

  unfoldable pub set_as_preempted : State → Run (Worker Q × Sandbox)
  set_as_preempted last = elim last [
    | interrupted ↦ bookkeep c now interrupted preempted w (record s { state = preempted })
    | _ ↦ fault panicked
  ]

  unfoldable pub set_as_complete : State → Run (Worker Q × Sandbox)
  set_as_complete last = do
    s₁ ← elim last [
      | returned ↦ ok (record s { state = complete; completion = now })
      | _ ↦ fault panicked
    ]
    (w₁, s₂) ← bookkeep c now last complete w s₁
    let executed = u64 (s₂.duration_of_state running_user + s₂.duration_of_state running_sys)
    w₂ ←
        admissions_control_subtract c s₂.admissions_estimate
          (record w₁ { effects = w₁.effects ++ admissions_info_update s₂.route executed ∷ [] })
    ok (record w₂ { effects = w₂.effects ++ route_latency_add s₂.route s₂.total_time ∷ [] }, s₂)

-- The transitions that enter or leave the local runqueue.
module _ {Q : Type 0} (queue : RunqueueConfig Q) (c : Config) (now : ℕ) (w : Worker Q)
    (s : Sandbox) where
  unfoldable pub set_as_runnable : State → Run (Worker Q × Sandbox)
  set_as_runnable last = do
    s₁ ← elim last [
      | initialized ↦ ok (record s { state = runnable; dispatched = now })
      | asleep ↦ ok (record s { state = runnable })
      | _ ↦ fault panicked
    ]
    q ← queue.add_fn s₁ w.runqueue
    bookkeep c now last runnable (record w { runqueue = q }) s₁

  unfoldable pub set_as_asleep : State → Run (Worker Q × Sandbox)
  set_as_asleep last = do
    let s₁ : Sandbox = record s { state = asleep }
    q ← elim last [ running_sys ↦ queue.delete_fn s₁ w.runqueue | _ ↦ fault panicked ]
    bookkeep c now last asleep (record w { runqueue = q }) s₁

  unfoldable pub set_as_returned : State → Run (Worker Q × Sandbox)
  set_as_returned last = do
    let s₁ : Sandbox = record s { state = returned }
    q ← elim last [ running_sys ↦ queue.delete_fn s₁ w.runqueue | _ ↦ fault panicked ]
    s₂ ← free_linear_memory s₁
    (w₁, s₃) ← bookkeep c now last returned (record w { runqueue = q }) s₂
    (w₂, s₄) ← respond 200 w₁ s₃
    ok (process_scheduler_updates w₂ s₄, s₄)

  -- What SANDBOX_ALLOCATED or SANDBOX_RUNNING_SYS still holds is given up.
  unfoldable pub error_from : State → Sandbox → Run (Q × Sandbox)
  error_from last s₁ = elim last [
    | allocated ↦ ok (w.runqueue, s₁)
    | running_sys ↦ (do q ← queue.delete_fn s₁ w.runqueue; s₂ ← free_linear_memory s₁; ok (q, s₂))
    | _ ↦ fault panicked
  ]

  unfoldable pub set_as_error : State → Run (Worker Q × Sandbox)
  set_as_error last = do
    (q, s₁) ← error_from last (record s { state = error })
    (w₁, s₂) ← bookkeep c now last error (record w { runqueue = q }) s₁
    w₂ ← admissions_control_subtract c s₂.admissions_estimate w₁
    respond 500 w₂ s₂

  -- The functions by which the runtime moves a sandbox from one state to another.
  unfoldable pub sandbox_sleep : Run (Worker Q × Sandbox)
  sandbox_sleep = assert_state s running_sys >> set_as_asleep running_sys

  unfoldable pub sandbox_wakeup : Run (Worker Q × Sandbox)
  sandbox_wakeup = assert_state s asleep >> set_as_runnable asleep

  unfoldable pub sandbox_exit_error : Run (Worker Q × Sandbox)
  sandbox_exit_error = do
    assert_state s running_sys
    (w₁, s₁) ← set_as_error running_sys
    ok (process_scheduler_updates w₁ s₁, s₁)

module _ {Q : Type 0} (c : Config) (now : ℕ) (w : Worker Q) (s : Sandbox) where
  unfoldable pub sandbox_exit_success : Run (Worker Q × Sandbox)
  sandbox_exit_success = assert_state s returned >> set_as_complete c now w s returned

  unfoldable pub sandbox_interrupt : Run (Worker Q × Sandbox)
  sandbox_interrupt = do
    (w₁, s₁) ← set_as_interrupted c now w s s.state
    ok (process_scheduler_updates w₁ s₁, s₁)

  unfoldable pub sandbox_preempt : Run (Worker Q × Sandbox)
  sandbox_preempt = assert_state s interrupted >> set_as_preempted c now w s interrupted

  unfoldable pub sandbox_syscall : Run (Worker Q × Sandbox)
  sandbox_syscall = do
    assert_state s running_user
    (w₁, s₁) ← set_as_running_sys c now w s running_user
    ok (process_scheduler_updates w₁ s₁, s₁)

  unfoldable pub sandbox_return : Run (Worker Q × Sandbox)
  sandbox_return = assert_state s running_sys >> set_as_running_user c now w s running_sys
