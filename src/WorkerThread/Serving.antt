-- ===== src/WorkerThread/Serving.antt =====
-- What a worker relies on while it serves a sandbox (runtime/include/scheduler.h), and
-- scheduler_preemptive_switch_to under it.
use sledge_serverless_framew.Base.{
  ℕ, ◌≤◌, ◌<◌, ◌≡◌, ◌≢◌, refl, sym, ap, ◌∙◌, false, true, ◌||◌, ok, if◌then◌else◌, update, arith,
  Returns, some, List, ◌∷◌, ◌⊎◌, inl, inr,
}
use sledge_serverless_framew.Fifo.Links.{runqueue, PsList, PsListLaws, count}
use sledge_serverless_framew.Globals
use sledge_serverless_framew.Globals.{Global, is_unused}
use sledge_serverless_framew.Globals.Cells.{IsLive, get-live}
use sledge_serverless_framew.Sandbox.{State, runnable, preempted, running_sys, running_user}
use sledge_serverless_framew.Sandbox.Transitions.{set_as_running_sys, set_as_running_user}
use sledge_serverless_framew.WorkerThread.{fast, slow, running, Machine, Environment, set_current}
use sledge_serverless_framew.WorkerThread.Dispatch.{preemptive_switch_to}
use sledge_serverless_framew.WorkerThread.Frame.{
  Moved, apply-Moved, running_sys-Kept, running_user-Kept,
}

-- A sandbox that can run: it has its memory and its globals, the first of which may be written.
pub record Held {H : Type 0} (m : Machine H) (x : ℕ) : Type 0 where
  pub nonnull : x ≢ 0
  pub names : (m.sandboxes x).id ≡ x
  pub memory : (m.sandboxes x).memory ≡ true
  pub cells : ℕ → Global
  pub live : IsLive (m.globals x) cells
  pub writable : (is_unused (cells 0).type || (cells 0).mutable) ≡ true
  pub changed : (m.sandboxes x).last_state_change ≤ m.clock

-- A sandbox waits to run for the first time or again after a sleep, or after a preemption.
abbrev pub Switchable : {H : Type 0} → Machine H → ℕ → Type 0
Switchable m x =
    (((m.sandboxes x).state ≡ runnable) × (m.variant x ≡ fast))
    ⊎ (((m.sandboxes x).state ≡ preempted) × (m.variant x ≡ slow))

-- A worker serves `current`, at the head of its runqueue, and the others of the runqueue wait.
pub record IsServing {H : Type 0} {ps : PsList H} (laws : PsListLaws ps) (m : Machine H)
    (current : ℕ) (others : List ℕ) : Type 0 where
  pub valid : laws.valid m.worker.runqueue
  pub contents : laws.contents m.worker.runqueue runqueue ≡ current ∷ others
  pub serves : m.worker.current ≡ some current
  pub deadline : m.worker.deadline ≡ (m.sandboxes current).absolute_deadline
  pub loaded : m.module_instance ≡ some current
  pub runs : m.variant current ≡ running
  pub base : m.base_variant ≡ fast
  pub held : Held m current
  pub waiting : (x : ℕ) → 0 < count others x → Held m x × Switchable m x

-- The machine when the context of `next` takes over.
pub record Switched {H : Type 0} (next : ℕ) (m m' : Machine H) : Type 0 where
  pub runqueue : m'.worker.runqueue ≡ m.worker.runqueue
  pub serves : m'.worker.current ≡ some next
  pub deadline : m'.worker.deadline ≡ (m'.sandboxes next).absolute_deadline
  pub loaded : m'.module_instance ≡ some next
  pub runs : m'.variant next ≡ running
  pub variants : (x : ℕ) → x ≢ next → m'.variant x ≡ m.variant x
  pub base_variant : m'.base_variant ≡ m.base_variant
  pub globals : m'.globals ≡ m.globals
  pub state : ((m'.sandboxes next).state ≡ running_sys) ⊎ ((m'.sandboxes next).state ≡ running_user)
  pub names : (m'.sandboxes next).id ≡ (m.sandboxes next).id
  pub memory : (m'.sandboxes next).memory ≡ (m.sandboxes next).memory
  pub changed : (m'.sandboxes next).last_state_change ≡ m'.clock
  pub clock : m.clock ≤ m'.clock
  pub others : (x : ℕ) → x ≢ next → m'.sandboxes x ≡ m.sandboxes x

module _ {H : Type 0} (env : Environment) (m : Machine H) (next : ℕ) where
  -- current_sandbox_set of a sandbox that can run.
  abbrev entered : Held m next → Machine H
  entered h = record m {
    worker = record m.worker {
      current = some next;
      deadline = (m.sandboxes next).absolute_deadline;
    };
    module_instance = some next;
    wasmg_0 = if is_unused (h.cells 0).type then m.wasmg_0 else (h.cells 0).value;
    variant = update m.variant next running;
  }

  set_current-entered :
      (h : Held m next)
      → set_current next (record m { variant = update m.variant next running }) ≡ ok (entered h)
  unfolding set_current Globals.update_if_used
  set_current-entered h =
      ground (arith, h.memory, get-live (m.globals next) h.cells 0 h.live h.live.capacity)

  switched :
      (h : Held m next) (into : State) (m' : Machine H)
      → (into ≡ running_sys) ⊎ (into ≡ running_user)
      → m.clock < env.later m.clock
      → Moved env next into (entered h) m'
      → Switched next m m'
  switched h into m' s l v = record {
    runqueue = v.runqueue;
    serves = v.current;
    deadline = v.deadline ∙ sym v.absolute_deadline;
    loaded = v.module_instance;
    runs = ap (λ f. f next) v.variant ∙ ground arith;
    variants = λ x n. ap (λ f. f x) v.variant ∙ ground arith;
    base_variant = v.base_variant;
    globals = v.globals;
    state = elim s [ inl e ↦ inl (v.state ∙ e) | inr e ↦ inr (v.state ∙ e) ];
    names = v.names;
    memory = v.memory;
    changed = v.changed;
    clock = ground (arith, l, v.clock);
    others = v.others;
  }

  -- scheduler_preemptive_switch_to of a sandbox that waits returns, and serves it.
  pub preemptive_switch_to_lem :
      (ps : PsList H)
      → env.config.state_totals ≡ false
      → m.clock < env.later m.clock
      → Held m next
      → Switchable m next
      → Returns (Switched next m) (preemptive_switch_to ps env next m)
  unfolding preemptive_switch_to
  preemptive_switch_to_lem ps t later h (inl (s, v)) =
      let (m', e, moved) =
        apply-Moved env (λ now w s. set_as_running_sys env.config now w s runnable) next running_sys
          (entered h)
          (running_sys-Kept env.config (env.later m.clock) (entered h).worker (m.sandboxes next) t
            (omega (arith, later, h.changed))) in
      (
        m',
        ground (arith, s, v, set_current-entered h, e),
        switched h running_sys m' (inl refl) later moved,
      )
  preemptive_switch_to_lem ps t later h (inr (s, v)) =
      let (m', e, moved) =
        apply-Moved env (λ now w s. set_as_running_user env.config now w s preempted) next
          running_user (entered h)
          (running_user-Kept env.config (env.later m.clock) (entered h).worker (m.sandboxes next) t
            (omega (arith, later, h.changed))) in
      (
        m',
        ground (arith, s, v, set_current-entered h, e),
        switched h running_user m' (inr refl) later moved,
      )
