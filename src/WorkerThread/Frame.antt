-- ===== src/WorkerThread/Frame.antt =====
-- What the transitions of a sandbox leave as it is (runtime/include/sandbox_set_as_*.h), in a build
-- without SANDBOX_STATE_TOTALS.
use sledge_serverless_framew.Base.{
  ℕ, ◌<◌, ◌≡◌, ◌≢◌, refl, false, Run, update, arith, Returns, Run-cases, inl, inr,
}
use sledge_serverless_framew.Sandbox.{
  State, runnable, preempted, running_sys, running_user, interrupted, Config, Sandbox, Worker,
  bookkeep, totals_increment, totals_decrement, state_history_append, process_scheduler_updates,
  deferred_sigalrm_replay,
}
use sledge_serverless_framew.Sandbox.Transitions.{
  set_as_running_sys, set_as_running_user, set_as_interrupted, set_as_preempted, interrupt_return,
  sandbox_preempt, sandbox_interrupt,
}
use sledge_serverless_framew.WorkerThread.{Machine, Environment, apply}

-- A transition at `now` into `state`, on the worker `w` and the sandbox `s`.
pub record Kept {H : Type 0} (now : ℕ) (into : State) (w : Worker H) (s : Sandbox)
    (r : Worker H × Sandbox) : Type 0 where
  pub runqueue : r.0.runqueue ≡ w.runqueue
  pub current : r.0.current ≡ w.current
  pub deadline : r.0.deadline ≡ w.deadline
  pub state : r.1.state ≡ into
  pub id : r.1.id ≡ s.id
  pub absolute_deadline : r.1.absolute_deadline ≡ s.absolute_deadline
  pub memory : r.1.memory ≡ s.memory
  pub http : r.1.http ≡ s.http
  pub changed : r.1.last_state_change ≡ now

module _ {H : Type 0} (c : Config) (now : ℕ) (w : Worker H) (s : Sandbox) where
  abbrev KeptBy : State → Run (Worker H × Sandbox) → Type 0
  KeptBy into r = Returns (Kept now into w s) r

  pub running_sys-Kept :
      c.state_totals ≡ false
      → s.last_state_change < now
      → KeptBy running_sys (set_as_running_sys c now w s runnable)
  unfolding set_as_running_sys bookkeep totals_increment totals_decrement state_history_append
  running_sys-Kept t h = elim (Run-cases (set_as_running_sys c now w s runnable)) [
    | inl (r, e) ↦ (r, e, ground (arith, e, t))
    | inr (reason, e) ↦ absurd (ground (arith, e, t, h))
  ]

  pub running_user-Kept :
      c.state_totals ≡ false
      → s.last_state_change < now
      → KeptBy running_user (set_as_running_user c now w s preempted)
  unfolding set_as_running_user bookkeep totals_increment totals_decrement state_history_append
      deferred_sigalrm_replay
  running_user-Kept t h = elim (Run-cases (set_as_running_user c now w s preempted)) [
    | inl (r, e) ↦ (r, e, ground (arith, e, t))
    | inr (reason, e) ↦ absurd (ground (arith, e, t, h))
  ]

  pub preempt-Kept :
      c.state_totals ≡ false
      → s.last_state_change < now
      → s.state ≡ interrupted
      → KeptBy preempted (sandbox_preempt c now w s)
  unfolding sandbox_preempt set_as_preempted bookkeep totals_increment totals_decrement
      state_history_append
  preempt-Kept t h i = elim (Run-cases (sandbox_preempt c now w s)) [
    | inl (r, e) ↦ (r, e, ground (arith, e, t))
    | inr (reason, e) ↦ absurd (ground (arith, e, t, h, i))
  ]

  pub interrupt-Kept :
      c.state_totals ≡ false
      → s.last_state_change < now
      → KeptBy interrupted (sandbox_interrupt c now w s)
  unfolding sandbox_interrupt set_as_interrupted totals_increment totals_decrement
      process_scheduler_updates
  interrupt-Kept t h = elim (Run-cases (sandbox_interrupt c now w s)) [
    | inl (r, e) ↦ (r, e, ground (arith, e, t))
    | inr (reason, e) ↦ absurd (ground (arith, e, t, h))
  ]

  pub return-Kept :
      c.state_totals ≡ false → KeptBy running_user (interrupt_return c now w s running_user)
  unfolding interrupt_return totals_increment totals_decrement
  return-Kept t = elim (Run-cases (interrupt_return c now w s running_user)) [
    | inl (r, e) ↦ (r, e, ground (arith, e, t))
    | inr (reason, e) ↦ absurd (ground (arith, e, t))
  ]

-- The machine behind a transition of the sandbox `id`.
pub record Moved {H : Type 0} (env : Environment) (id : ℕ) (into : State) (m m' : Machine H)
    : Type 0 where
  pub runqueue : m'.worker.runqueue ≡ m.worker.runqueue
  pub current : m'.worker.current ≡ m.worker.current
  pub deadline : m'.worker.deadline ≡ m.worker.deadline
  pub state : (m'.sandboxes id).state ≡ into
  pub names : (m'.sandboxes id).id ≡ (m.sandboxes id).id
  pub absolute_deadline : (m'.sandboxes id).absolute_deadline ≡ (m.sandboxes id).absolute_deadline
  pub memory : (m'.sandboxes id).memory ≡ (m.sandboxes id).memory
  pub changed : (m'.sandboxes id).last_state_change ≡ m'.clock
  pub others : (x : ℕ) → x ≢ id → m'.sandboxes x ≡ m.sandboxes x
  pub clock : m'.clock ≡ env.later m.clock
  pub variant : m'.variant ≡ m.variant
  pub base_variant : m'.base_variant ≡ m.base_variant
  pub globals : m'.globals ≡ m.globals
  pub module_instance : m'.module_instance ≡ m.module_instance
  pub wasmg_0 : m'.wasmg_0 ≡ m.wasmg_0

-- A transition that keeps the rest of the sandbox and of the worker keeps the rest of the machine.
pub apply-Moved :
    {H : Type 0} (env : Environment) (f : ℕ → Worker H → Sandbox → Run (Worker H × Sandbox))
    (id : ℕ) (into : State) (m : Machine H)
    → Returns
        (Kept (env.later m.clock) into m.worker (m.sandboxes id))
        (f (env.later m.clock) m.worker (m.sandboxes id))
    → Returns (Moved env id into m) (apply env f id m)
unfolding apply
apply-Moved env f id into m ((w, s), e, k) = (
  record m { worker = w; sandboxes = update m.sandboxes id s; clock = env.later m.clock },
  ground (arith, e),
  record {
    runqueue = k.runqueue;
    current = k.current;
    deadline = k.deadline;
    state = ground (arith, k.state);
    names = ground (arith, k.id);
    absolute_deadline = ground (arith, k.absolute_deadline);
    memory = ground (arith, k.memory);
    changed = ground (arith, k.changed);
    others = λ x n. ground arith;
    clock = refl;
    variant = refl;
    base_variant = refl;
    globals = refl;
    module_instance = refl;
    wasmg_0 = refl;
  },
)
