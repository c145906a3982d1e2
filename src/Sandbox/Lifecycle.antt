-- ===== src/Sandbox/Lifecycle.antt =====
-- A sandbox on its worker, from its initialization on: where it is queued, what it holds, and what
-- its client is sent (runtime/include/sandbox_set_as_*.h, scheduler.h).
use sledge_serverless_framew.Base.{
  ℕ, ◌+◌, ◌<◌, ◌≡◌, ◌≢◌, Bool, true, false, ok, arith, ◌++◌, List, [], ◌∷◌, if◌then◌else◌, Whenever,
  one_if, none, some,
}
use sledge_serverless_framew.Sandbox.{
  State, uninitialized, initialized, runnable, preempted, running_sys, running_user, interrupted,
  asleep, returned, complete, error, Config, Sandbox, Worker, RunqueueConfig, u64, bookkeep,
  state_history_append, free_linear_memory, respond, Effect, send_response, admissions_info_update,
  route_latency_add, raise_sigalrm, totals_decrement, totals_increment, admissions_control_subtract,
  process_scheduler_updates, deferred_sigalrm_replay,
}
use sledge_serverless_framew.Sandbox.Transitions.{
  set_as_initialized, set_as_runnable, set_as_returned, set_as_complete, set_as_error, error_from,
  set_as_asleep, set_as_running_sys, set_as_running_user, set_as_interrupted, interrupt_return,
  set_as_preempted, sandbox_sleep, sandbox_wakeup, sandbox_syscall, sandbox_return,
  sandbox_interrupt, sandbox_preempt, sandbox_exit_success, sandbox_exit_error,
}
use sledge_serverless_framew.Sandbox.Moves.{
  Move, move, initialize, dispatch, run, resume, sleep, wakeup, syscall, return, interrupt,
  return_to, preempt, finish, exit_success, exit_error, fail,
}

-- What a runqueue promises: adding a sandbox adds it once, and deleting one that is there takes it
-- away once.
pub record RunqueueLaws {Q : Type 0} (queue : RunqueueConfig Q) : Type 1 where
  pub valid : Q → Type 0
  pub members : Q → ℕ → ℕ
  pub add :
      (s : Sandbox) (q : Q) (x : ℕ)
      → valid q
      → Whenever (λ r. members r x ≡ one_if s.id x + members q x) (queue.add_fn s q)
  pub add_valid : (s : Sandbox) (q : Q) → valid q → Whenever valid (queue.add_fn s q)
  pub delete :
      (s : Sandbox) (q : Q) (x : ℕ)
      → valid q
      → 0 < members q s.id
      → Whenever (λ r. members r x + one_if s.id x ≡ members q x) (queue.delete_fn s q)
  pub delete_valid :
      (s : Sandbox) (q : Q) → valid q → 0 < members q s.id → Whenever valid (queue.delete_fn s q)

-- How often a sandbox stands on the runqueue in a state.
abbrev pub queued : State → ℕ
queued runnable = 1
queued preempted = 1
queued running_sys = 1
queued running_user = 1
queued _ = 0

-- The states in which the linear memory is gone. The error exit of the preparation keeps it.
abbrev pub released : State → Bool
released returned = true
released complete = true
released _ = false

abbrev pub finished : State → Bool
finished returned = true
finished complete = true
finished error = true
finished _ = false

-- The state that an interrupt handler goes back to.
abbrev pub underlying : State → State → State
underlying interrupted saved = saved
underlying state saved = state

-- How many responses were sent on a session.
unfoldable pub answers : ℕ → List Effect → ℕ
answers session [] = 0
answers session (send_response i status ∷ es) = one_if i session + answers session es
answers session (_ ∷ es) = answers session es

answers-append :
    (session : ℕ) (es fs : List Effect)
    → answers session (es ++ fs) ≡ answers session es + answers session fs
unfolding answers
answers-append session [] fs = omega arith
answers-append session (send_response i status ∷ es) fs =
    omega (arith, answers-append session es fs)
answers-append session (admissions_info_update r d ∷ es) fs = answers-append session es fs
answers-append session (route_latency_add r d ∷ es) fs = answers-append session es fs
answers-append session (raise_sigalrm ∷ es) fs = answers-append session es fs

-- One effect more.
module _ (session : ℕ) (es : List Effect) where
  answers-respond :
      (i status : ℕ)
      → answers session (es ++ send_response i status ∷ []) ≡ answers session es + one_if i session
  unfolding answers
  answers-respond i status = ground (arith, answers-append session es (send_response i status ∷ []))

  answers-update :
      (r d : ℕ) → answers session (es ++ admissions_info_update r d ∷ []) ≡ answers session es
  unfolding answers
  answers-update r d = omega (arith, answers-append session es (admissions_info_update r d ∷ []))

  answers-latency :
      (r d : ℕ) → answers session (es ++ route_latency_add r d ∷ []) ≡ answers session es
  unfolding answers
  answers-latency r d = omega (arith, answers-append session es (route_latency_add r d ∷ []))

  answers-raise : answers session (es ++ raise_sigalrm ∷ []) ≡ answers session es
  unfolding answers
  answers-raise = omega (arith, answers-append session es (raise_sigalrm ∷ []))

-- The moves that need nothing of a sandbox but what they assert.
abbrev pub plain : Move → Bool
plain initialize = false
plain dispatch = false
plain interrupt = false
plain (return_to _) = false
plain preempt = false
plain fail = false
plain _ = true

module _ {Q : Type 0} (queue : RunqueueConfig Q) (laws : RunqueueLaws queue) (c : Config)
    (session : ℕ) where
  -- What holds of a sandbox between two moves; `saved` is the state under an interrupt.
  pub record Inv (w : Worker Q) (s : Sandbox) (saved : State) : Type 0 where
    pub valid : laws.valid w.runqueue
    pub on_runqueue : laws.members w.runqueue s.id ≡ queued (underlying s.state saved)
    pub session_held : s.http ≡ (if finished (underlying s.state saved) then none else some session)
    pub memory_freed : released (underlying s.state saved) ≡ true → s.memory ≡ false
    pub answered :
        answers session w.effects ≡ (if finished (underlying s.state saved) then 1 else 0)
    pub saved_proper : saved ≢ interrupted

  module _ (now : ℕ) (w w' : Worker Q) (s s' : Sandbox) (saved : State) (i : Inv w s saved) where
    queued-running_sys : s.state ≡ running_sys → 0 < laws.members w.runqueue s.id
    queued-running_sys e = ground (arith, i.on_runqueue)

    pub plain-move-Inv :
        (m : Move) → plain m ≡ true → move queue c now m w s ≡ ok (w', s') → Inv w' s' saved
    unfolding move bookkeep state_history_append free_linear_memory respond set_as_initialized
        set_as_runnable set_as_returned set_as_complete set_as_error error_from set_as_asleep
        set_as_running_sys set_as_running_user set_as_interrupted interrupt_return set_as_preempted
        sandbox_sleep sandbox_wakeup sandbox_syscall sandbox_return sandbox_interrupt
        sandbox_preempt sandbox_exit_success sandbox_exit_error totals_increment totals_decrement
        process_scheduler_updates deferred_sigalrm_replay admissions_control_subtract
    plain-move-Inv run p h = ground arith
    plain-move-Inv resume p h = ground (arith, answers-raise session w.effects)
    plain-move-Inv sleep p h =
        let s₁ : Sandbox = record s { state = asleep } in
        let there = queued-running_sys (ground (arith, h)) in
        ground (
          arith,
          laws.delete s₁ w.runqueue s.id i.valid there,
          laws.delete_valid s₁ w.runqueue i.valid there,
        )
    plain-move-Inv wakeup p h =
        let s₁ : Sandbox = record s { state = runnable } in
        ground (arith, laws.add s₁ w.runqueue s.id i.valid, laws.add_valid s₁ w.runqueue i.valid)
    plain-move-Inv syscall p h = ground arith
    plain-move-Inv return p h = ground (arith, answers-raise session w.effects)
    plain-move-Inv finish p h =
        let s₁ : Sandbox = record s { state = returned } in
        let there = queued-running_sys (ground (arith, h)) in
        ground (
          arith,
          laws.delete s₁ w.runqueue s.id i.valid there,
          laws.delete_valid s₁ w.runqueue i.valid there,
          answers-respond session w.effects session 200,
        )
    plain-move-Inv exit_success p h =
        let executed = u64 (s.duration_of_state running_user + s.duration_of_state running_sys) in
        ground (
          arith,
          answers-update session w.effects s.route executed,
          answers-latency session (w.effects ++ admissions_info_update s.route executed ∷ [])
              s.route s.total_time,
        )
    plain-move-Inv exit_error p h =
        let s₁ : Sandbox = record s { state = error } in
        let there = queued-running_sys (ground (arith, h)) in
        ground (
          arith,
          laws.delete s₁ w.runqueue s.id i.valid there,
          laws.delete_valid s₁ w.runqueue i.valid there,
          answers-respond session w.effects session 500,
        )
    plain-move-Inv _ p h = absurd (ground arith)

    pub initialize-Inv :
        s.state ≡ uninitialized → move queue c now initialize w s ≡ ok (w', s') → Inv w' s' saved
    unfolding move bookkeep state_history_append set_as_initialized totals_increment
        totals_decrement
    initialize-Inv e h = ground arith

    pub dispatch-Inv :
        s.state ≡ initialized → move queue c now dispatch w s ≡ ok (w', s') → Inv w' s' saved
    unfolding move set_as_runnable bookkeep state_history_append totals_increment totals_decrement
    dispatch-Inv e h =
        let s₁ : Sandbox = record s { state = runnable; dispatched = now } in
        ground (arith, laws.add s₁ w.runqueue s.id i.valid, laws.add_valid s₁ w.runqueue i.valid)

    -- A handler interrupts a sandbox in any other state, and goes back to that state.
    pub interrupt-Inv :
        s.state ≢ interrupted → move queue c now interrupt w s ≡ ok (w', s') → Inv w' s' s.state
    unfolding move sandbox_interrupt set_as_interrupted totals_increment totals_decrement
        process_scheduler_updates
    interrupt-Inv n h = ground arith

    pub return_to-Inv : move queue c now (return_to saved) w s ≡ ok (w', s') → Inv w' s' saved
    unfolding move interrupt_return totals_increment totals_decrement
    return_to-Inv h = ground arith

    -- The scheduler preempts a sandbox that was interrupted in user code.
    pub preempt-Inv :
        saved ≡ running_user → move queue c now preempt w s ≡ ok (w', s') → Inv w' s' saved
    unfolding move sandbox_preempt set_as_preempted bookkeep state_history_append totals_increment
        totals_decrement
    preempt-Inv e h = ground arith

    -- The error exit of the preparation.
    pub fail-Inv : s.state ≡ initialized → move queue c now fail w s ≡ ok (w', s') → Inv w' s' saved
    unfolding move set_as_error error_from bookkeep state_history_append totals_increment
        totals_decrement admissions_control_subtract respond
    fail-Inv e h = ground (arith, answers-respond session w.effects session 500)
