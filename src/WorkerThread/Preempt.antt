-- ===== src/WorkerThread/Preempt.antt =====
-- scheduler_preemptive_sched under the FIFO policy (runtime/include/scheduler.h).
use sledge_serverless_framew.Base.{
  ℕ, ◌+◌, ◌*◌, ◌%◌, ◌^◌, ◌≤◌, ◌<◌, ◌≡◌, ◌≢◌, sym, ap, ◌∙◌, false, true, ok, update, arith, some,
  inl, inr,
}
use mathlib.Core.Path.{subst}
use sledge_serverless_framew.Globals
use sledge_serverless_framew.Globals.{Global, i64, is_unused}
use sledge_serverless_framew.Globals.Vector
use sledge_serverless_framew.Globals.Vector.{Vec}
use sledge_serverless_framew.Globals.Cells.{
  IsLive, insert-live, stored, stored_in, stored-IsLive, get-live,
}
use sledge_serverless_framew.Sandbox.{State, preempted, interrupted}
use sledge_serverless_framew.Sandbox.Transitions.{sandbox_preempt}
use sledge_serverless_framew.WorkerThread.{slow, running, Machine, Environment, apply, write_back}
use sledge_serverless_framew.WorkerThread.Dispatch.{set_variant}
use sledge_serverless_framew.WorkerThread.Frame.{Moved, apply-Moved, preempt-Kept}
use sledge_serverless_framew.WorkerThread.Serving.{Held, Switchable}

pub Held-frame :
    {H : Type 0} (m m' : Machine H) (x : ℕ)
    → m'.sandboxes x ≡ m.sandboxes x
    → m'.globals x ≡ m.globals x
    → m.clock ≤ m'.clock
    → Held m x
    → Held m' x
Held-frame m m' x s g c h = record {
  nonnull = h.nonnull;
  names = ap (λ y. y.id) s ∙ h.names;
  memory = ap (λ y. y.memory) s ∙ h.memory;
  cells = h.cells;
  live = subst (λ v. IsLive v h.cells) (sym g) h.live;
  writable = h.writable;
  changed = ground (arith, s, c, h.changed);
}

pub Switchable-frame :
    {H : Type 0} (m m' : Machine H) (x : ℕ)
    → m'.sandboxes x ≡ m.sandboxes x
    → m'.variant x ≡ m.variant x
    → Switchable m x
    → Switchable m' x
Switchable-frame m m' x s v (inl (st, f)) = inl (ap (λ y. y.state) s ∙ st, v ∙ f)
Switchable-frame m m' x s v (inr (st, f)) = inr (ap (λ y. y.state) s ∙ st, v ∙ f)

module _ {H : Type 0} (env : Environment) (m : Machine H) (x : ℕ) (h : Held m x) where
  -- The globals of `x` with the global 0 of the module instance.
  abbrev pub saved_cells : ℕ → Global
  saved_cells = update h.cells 0 (
      stored true (λ i. Globals.zeroed) env.upper (m.globals x) h.cells 0 m.wasmg_0 true h.live
        h.live.capacity i64)

  abbrev pub saved_globals : Vec Global
  saved_globals =
      stored_in true (λ i. Globals.zeroed) env.upper (m.globals x) h.cells 0 m.wasmg_0 true h.live
        h.live.capacity i64

  abbrev pub saved : Machine H
  saved = record m { globals = update m.globals x saved_globals }

  pub write_back-saved : write_back env x m ≡ ok saved
  unfolding write_back Globals.set_i64
  write_back-saved = ground (
    arith,
    insert-live true (λ i. Globals.zeroed) env.upper (m.globals x) h.cells 0 m.wasmg_0 true h.live
        h.live.capacity i64 h.writable,
  )

  pub saved-IsLive : IsLive saved_globals saved_cells
  saved-IsLive =
      stored-IsLive true (λ i. Globals.zeroed) env.upper (m.globals x) h.cells 0 m.wasmg_0 true
        h.live h.live.capacity i64

-- The global 0 has the lower half of `v`.
abbrev pub Saves : ℕ → Vec Global → Type 0
Saves v globals =
    (g : Global) × (Vector.get globals 0 ≡ ok (some g)) × (g.value % 2 ^ 32 ≡ v % 2 ^ 32)

low_half : (v upper : ℕ) → (v % 2 ^ 32 + upper * 2 ^ 32) % 2 ^ 32 ≡ v % 2 ^ 32
low_half v upper = omega arith

-- The machine when a preempted sandbox has left its context.
pub record Out {H : Type 0} (x : ℕ) (m m' : Machine H) : Type 0 where
  pub runqueue : m'.worker.runqueue ≡ m.worker.runqueue
  pub variants : (y : ℕ) → y ≢ x → m'.variant y ≡ m.variant y
  pub base_variant : m'.base_variant ≡ m.base_variant
  pub others : (y : ℕ) → y ≢ x → m'.sandboxes y ≡ m.sandboxes y
  pub globals : (y : ℕ) → y ≢ x → m'.globals y ≡ m.globals y
  pub clock : m.clock ≤ m'.clock
  pub held : Held m' x
  pub state : (m'.sandboxes x).state ≡ preempted
  pub variant : m'.variant x ≡ slow
  pub first : Saves m.wasmg_0 (m'.globals x)

module _ {H : Type 0} (env : Environment) (totals : env.config.state_totals ≡ false)
    (later : (t : ℕ) → t < env.later t) (m : Machine H) (x : ℕ) (h : Held m x) where
  pub held-after : (into : State) (m₁ : Machine H) → Moved env x into m m₁ → Held m₁ x
  held-after into m₁ v = record {
    nonnull = h.nonnull;
    names = v.names ∙ h.names;
    memory = v.memory ∙ h.memory;
    cells = h.cells;
    live = subst (λ g. IsLive (g x) h.cells) (sym v.globals) h.live;
    writable = h.writable;
    changed = ground (arith, v.changed);
  }

  saved-Out :
      (m₁ : Machine H) (v : Moved env x preempted m m₁)
      → Out x m (set_variant (some x) slow (saved env m₁ x (held-after preempted m₁ v)))
  saved-Out m₁ v =
      let h₁ = held-after preempted m₁ v in
      let m₂ : Machine H = set_variant (some x) slow (saved env m₁ x h₁) in
      record {
        runqueue = v.runqueue;
        variants = λ y n. ground (arith, ap (λ f. f y) v.variant);
        base_variant = v.base_variant;
        others = v.others;
        globals = λ y n. ground (arith, ap (λ f. f y) v.globals);
        clock = ground (arith, v.clock, later m.clock);
        held = record {
          nonnull = h.nonnull;
          names = h₁.names;
          memory = h₁.memory;
          cells = saved_cells env m₁ x h₁;
          live =
              subst (λ g. IsLive g (saved_cells env m₁ x h₁)) (ground arith)
                (saved-IsLive env m₁ x h₁);
          writable = ground arith;
          changed = h₁.changed;
        };
        state = v.state;
        variant = ground arith;
        first = (
          saved_cells env m₁ x h₁ 0,
          ap (λ v. Vector.get v 0) (ground arith)
              ∙ get-live (saved_globals env m₁ x h₁) (saved_cells env m₁ x h₁) 0
                  (saved-IsLive env m₁ x h₁) h₁.live.capacity,
          low_half m₁.wasmg_0 env.upper ∙ ap (λ n. n % 2 ^ 32) v.wasmg_0,
        );
      }

  -- What the preempted sandbox goes through.
  pub switch-Out :
      (m.sandboxes x).state ≡ interrupted
      → m.variant x ≡ running
      → (m₁ : Machine H) × (m₂ : Machine H) × (apply env
            (λ now w s. sandbox_preempt env.config now w s)
            x
            m
          ≡ ok m₁)
        × (write_back env x m₁ ≡ ok m₂)
        × (m₂.variant x ≡ running)
        × Out x m (set_variant (some x) slow m₂)
  switch-Out i r =
      let (m₁, e, v) =
        apply-Moved env (λ now w s. sandbox_preempt env.config now w s) x preempted m
          (preempt-Kept env.config (env.later m.clock) m.worker (m.sandboxes x) totals
            (omega (arith, later m.clock, h.changed)) i) in
      let h₁ = held-after preempted m₁ v in
      (
        m₁,
        saved env m₁ x h₁,
        e,
        write_back-saved env m₁ x h₁,
        ap (λ f. f x) v.variant ∙ r,
        saved-Out m₁ v,
      )
