-- ===== src/Sandbox.antt =====
-- The sandbox, its states, and the worker that it runs on: runtime/include/sandbox_types.h,
-- sandbox_state.h, sandbox_state_history.h and sandbox_functions.h.
-- A sandbox, a tenant, a route and an HTTP session are named by numbers. The clock is an argument:
-- `now` is what `__getcycles()` returned.
pub mod Transitions
pub mod Moves
pub mod Time
pub mod Graph
pub mod Lifecycle
pub mod Reach
mod Tests
use sledge_serverless_framew.Base.{
  ℕ, ◌+◌, ◌-◌, ◌%◌, ◌^◌, Bool, true, false, ◌&&◌, Option, none, some, List, [], ◌∷◌, ◌++◌, Run, ok,
  fault, panicked, null_pointer, suc, ◌>>=◌, ◌>>◌, assert, panic_if, ltb, ◌==◌, if◌then◌else◌,
  update,
}

-- `sandbox_state_t`.
pub data State : Type 0 where
  uninitialized allocated initialized runnable preempted running_sys : State
  running_user interrupted asleep returned complete error : State

-- The value of the enumerator.
abbrev pub index : State → ℕ
index uninitialized = 0
index allocated = 1
index initialized = 2
index runnable = 3
index preempted = 4
index running_sys = 5
index running_user = 6
index interrupted = 7
index asleep = 8
index returned = 9
index complete = 10
index error = 11

-- `a[s] = v` for an array over the states.
abbrev pub set_at : (State → ℕ) → State → ℕ → State → ℕ
set_at f s v t = if index s == index t then v else f t

-- The build's switches SANDBOX_STATE_TOTALS, LOG_STATE_CHANGES and ADMISSIONS_CONTROL.
pub record Config : Type 0 where
  pub state_totals : Bool
  pub log_state_changes : Bool
  pub admissions_control : Bool

-- `struct sandbox`. `memory` tells whether the pointer to the linear memory is not NULL, and `http`
-- is the HTTP session, `none` for NULL.
pub record Sandbox : Type 0 where
  pub id : ℕ
  pub state : State
  pub state_history : List State
  pub route : ℕ
  pub tenant : ℕ
  pub http : Option ℕ
  pub memory : Bool
  pub last_state_change : ℕ
  pub allocation : ℕ
  pub dispatched : ℕ
  pub completion : ℕ
  pub duration_of_state : State → ℕ
  pub last_state_duration : ℕ
  pub absolute_deadline : ℕ
  pub admissions_estimate : ℕ
  pub total_time : ℕ

-- What a transition does outside the worker's own state, in the order of the calls: an HTTP session
-- goes back to the listener with a status code, a route's admissions window and latency window get a
-- value, and a deferred SIGALRM is raised.
pub data Effect : Type 0 where
  send_response : ℕ → ℕ → Effect
  admissions_info_update : ℕ → ℕ → Effect
  route_latency_add : ℕ → ℕ → Effect
  raise_sigalrm : Effect

-- The worker: the totals, the local runqueue, the admitted work, the tenants' budgets (an `int64_t`
-- as its bit pattern), the current sandbox and its deadline, and the deferred signals.
pub record Worker (Q : Type 0) : Type 0 where
  pub totals : State → ℕ
  pub runqueue : Q
  pub admitted : ℕ
  pub paid : ℕ → Bool
  pub remaining_budget : ℕ → ℕ
  pub current : Option ℕ
  pub deadline : ℕ
  pub deferred_sigalrm : ℕ
  pub effects : List Effect

-- `struct local_runqueue_config`: the functions that a scheduling policy registers.
pub record RunqueueConfig (Q : Type 0) : Type 0 where
  pub add_fn : Sandbox → Q → Run Q
  pub delete_fn : Sandbox → Q → Run Q

abbrev pub u64 : ℕ → ℕ
u64 n = n % 2 ^ 64

abbrev pub u32 : ℕ → ℕ
u32 n = n % 2 ^ 32

abbrev pub history_capacity : ℕ
history_capacity = 100

abbrev pub history_length : List State → ℕ
history_length [] = 0
history_length (_ ∷ h) = suc (history_length h)

unfoldable pub state_history_append : Config → Sandbox → State → Sandbox
state_history_append c s state = record s {
  state_history =
      if c.log_state_changes && ltb (history_length s.state_history) history_capacity
      then s.state_history ++ state ∷ []
      else s.state_history;
}

-- `module_free_linear_memory`, and the pointer becomes NULL.
unfoldable pub free_linear_memory : Sandbox → Run Sandbox
free_linear_memory s = do assert s.memory; ok (record s { memory = false })

module _ {Q : Type 0} where
  unfoldable pub totals_increment : Config → Worker Q → State → Worker Q
  totals_increment c w state = record w {
    totals = if c.state_totals then set_at w.totals state (u32 (w.totals state + 1)) else w.totals;
  }

  unfoldable pub totals_decrement : Config → Worker Q → State → Run (Worker Q)
  totals_decrement c w state = do
    panic_if (c.state_totals && w.totals state == 0)
    ok (record w {
      totals = if c.state_totals then set_at w.totals state (w.totals state - 1) else w.totals;
    })

  -- The lines under "State Change Bookkeeping" of each transition.
  unfoldable pub bookkeep :
      Config → ℕ → State → State → Worker Q → Sandbox → Run (Worker Q × Sandbox)
  bookkeep c now last state w s = do
    assert (ltb s.last_state_change now)
    let spent = now - s.last_state_change
    let s₁ : Sandbox = record s {
      last_state_duration = spent;
      duration_of_state = set_at s.duration_of_state last (u64 (s.duration_of_state last + spent));
      last_state_change = now;
    }
    w' ← totals_decrement c (totals_increment c w state) last
    ok (w', state_history_append c s₁ state)

  -- runtime/src/admissions_control.c
  unfoldable pub admissions_control_subtract : Config → ℕ → Worker Q → Run (Worker Q)
  admissions_control_subtract c estimate w = do
    panic_if (c.admissions_control && ltb w.admitted estimate)
    ok (record w { admitted = if c.admissions_control then w.admitted - estimate else w.admitted })

  -- `atomic_fetch_sub` on the budget of a paying tenant.
  unfoldable pub process_scheduler_updates : Worker Q → Sandbox → Worker Q
  process_scheduler_updates w s = record w {
    remaining_budget =
        if w.paid s.tenant
        then update w.remaining_budget s.tenant
            (u64 (w.remaining_budget s.tenant + 2 ^ 64 - u64 s.last_state_duration))
        else w.remaining_budget;
  }

  -- `http_session_set_response_header`, the state EXECUTION_COMPLETE and
  -- `http_session_send_response`; the sandbox forgets the session.
  unfoldable pub respond : ℕ → Worker Q → Sandbox → Run (Worker Q × Sandbox)
  respond status w s = elim s.http [
    | none ↦ fault null_pointer
    | some session ↦ ok (
      record w { effects = w.effects ++ send_response session status ∷ [] },
      record s { http = none },
    )
  ]

  unfoldable pub deferred_sigalrm_replay : Worker Q → Worker Q
  deferred_sigalrm_replay w = record w {
    deferred_sigalrm = if ltb 0 w.deferred_sigalrm then 0 else w.deferred_sigalrm;
    effects = if ltb 0 w.deferred_sigalrm then w.effects ++ raise_sigalrm ∷ [] else w.effects;
  }
