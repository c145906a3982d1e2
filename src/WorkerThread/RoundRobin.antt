-- ===== src/WorkerThread/RoundRobin.antt =====
-- The round robin of the FIFO policy: scheduler_preemptive_sched (runtime/include/scheduler.h) and the
-- signal SIGALRM (runtime/src/software_interrupt.c).
use sledge_serverless_framew.Base.{
  ℕ, ◌<◌, ◌≡◌, ◌≢◌, refl, sym, ap, ◌∙◌, false, ok, ◌==◌, arith, Returns, some, List, [], ◌∷◌, ◌++◌,
  ◌⊎◌, inl, inr, Bool-cases,
}
use mathlib.Core.Path.{subst}
use sledge_serverless_framew.Fifo
use sledge_serverless_framew.Fifo.Links.{runqueue, PsList, PsListLaws, count, count-++}
use sledge_serverless_framew.Fifo.Rotation.{rotate_correct, get_next-cons, head-once}
use sledge_serverless_framew.Globals.Vector
use sledge_serverless_framew.Globals.Cells.{IsLive}
use sledge_serverless_framew.Sandbox.{State, running_sys, running_user, interrupted}
use sledge_serverless_framew.Sandbox.Transitions.{interrupt_return}
use sledge_serverless_framew.WorkerThread.{slow, Machine, Environment, fifo_get_next}
use sledge_serverless_framew.WorkerThread.Dispatch.{preemptive_sched, set_variant}
use sledge_serverless_framew.WorkerThread.Frame.{Moved, apply-Moved, return-Kept}
use sledge_serverless_framew.WorkerThread.Serving.{
  Held, Switchable, IsServing, Switched, preemptive_switch_to_lem,
}
use sledge_serverless_framew.WorkerThread.Preempt.{
  Held-frame, Switchable-frame, Out, Saves, held-after, switch-Out,
}

module _ {H : Type 0} (ps : PsList H) (laws : PsListLaws ps) (env : Environment)
    (totals : env.config.state_totals ≡ false) (later : (t : ℕ) → t < env.later t) where
  -- The worker serves the next sandbox of the round, and the one it served is the last; `first` was
  -- its global 0.
  pub record Rotated (first current : ℕ) (others : List ℕ) (m' : Machine H) : Type 0 where
    pub next : ℕ
    pub rest : List ℕ
    pub order : others ++ current ∷ [] ≡ next ∷ rest
    pub serving : IsServing laws m' next rest
    pub running :
        ((m'.sandboxes next).state ≡ running_sys) ⊎ ((m'.sandboxes next).state ≡ running_user)
    pub first_global : ((next ≡ current) × (m'.wasmg_0 ≡ first)) ⊎ Saves first (m'.globals current)

  next-of :
      (m : Machine H) (h' : H) (cur x y : ℕ) (xs ys : List ℕ)
      → laws.valid m.worker.runqueue
      → laws.contents m.worker.runqueue runqueue ≡ x ∷ xs
      → m.worker.current ≡ some x
      → Fifo.rotate ps (λ id. (m.sandboxes id).state) m.worker.runqueue ≡ ok h'
      → laws.valid h'
      → laws.contents h' runqueue ≡ y ∷ ys
      → fifo_get_next ps env m
        ≡ ok (record m { worker = record m.worker { runqueue = h' } }, some y)
  unfolding fifo_get_next
  next-of m h' cur x y xs ys v c s r v' c' = ground (
    arith,
    get_next-cons ps laws m.worker.runqueue x xs v c,
    s,
    r,
    get_next-cons ps laws h' y ys v' c',
  )

  differs :
      (m : Machine H) (x : ℕ) (others : List ℕ)
      → IsServing laws m x others
      → (y : ℕ) → 0 < count others y
      → y ≢ x
  differs m x others s y p e = ground (
    arith,
    ap (count others) e,
    (head-once ps laws m.worker.runqueue x others s.valid s.contents).0,
    p,
  )

  -- The sandbox that is served makes a transition.
  pub Moved-IsServing :
      (into : State) (m : Machine H) (x : ℕ) (others : List ℕ) (m' : Machine H)
      → IsServing laws m x others
      → Moved env x into m m'
      → IsServing laws m' x others
  Moved-IsServing into m x others m' s v = record {
    valid = subst laws.valid (sym v.runqueue) s.valid;
    contents = ap (λ q. laws.contents q runqueue) v.runqueue ∙ s.contents;
    serves = v.current ∙ s.serves;
    deadline = v.deadline ∙ s.deadline ∙ sym v.absolute_deadline;
    loaded = v.module_instance ∙ s.loaded;
    runs = ap (λ f. f x) v.variant ∙ s.runs;
    base = v.base_variant ∙ s.base;
    held = held-after env totals later m x s.held into m' v;
    waiting = λ y p.
        let n = differs m x others s y p in
        let (h, w) = s.waiting y p in
        (
          Held-frame m m' y (v.others y n) (ap (λ g. g y) v.globals)
              (ground (arith, v.clock, later m.clock)) h,
          Switchable-frame m m' y (v.others y n) (ap (λ f. f y) v.variant) w,
        );
  }

  split-count : (xs : List ℕ) (a x : ℕ) → 0 < count (xs ++ a ∷ []) x → x ≢ a → 0 < count xs x
  unfolding count
  split-count xs a x p n = ground (arith, count-++ xs (a ∷ []) x)

  abbrev requeued : Machine H → H → Machine H
  requeued m h' = record m { worker = record m.worker { runqueue = h' } }

  module _ (m : Machine H) (x y : ℕ) (ys : List ℕ) (s : IsServing laws m x (y ∷ ys)) (h' : H)
      (valid' : laws.valid h') (contents' : laws.contents h' runqueue ≡ y ∷ ys ++ x ∷ []) where
    distinct : (y ≢ x) × (count ys y ≡ 0)
    unfolding count
    distinct =
        let (absent, _) = head-once ps laws m.worker.runqueue x (y ∷ ys) s.valid s.contents in
        (
          λ e. ground (arith, absent, e),
          ground (
            arith,
            head-once ps laws h' y (ys ++ x ∷ []) valid' contents',
            count-++ ys (x ∷ []) y,
          ),
        )

    again : count (ys ++ x ∷ []) y ≡ 0
    again = (head-once ps laws h' y (ys ++ x ∷ []) valid' contents').0

    never-again : (z : ℕ) → 0 < count (ys ++ x ∷ []) z → z ≢ y
    never-again z p e = ground (arith, ap (count (ys ++ x ∷ [])) e, p, again)

    module _ (m₃ m₄ : Machine H) (out : Out x (requeued m h') m₃) (sw : Switched y m₃ m₄) where
      still : (z : ℕ) → z ≢ x → z ≢ y → Held m z → Switchable m z → Held m₄ z × Switchable m₄ z
      still z nx ny h w =
          let same : m₄.sandboxes z ≡ m.sandboxes z = sw.others z ny ∙ out.others z nx in
          (
            Held-frame m m₄ z same (ap (λ g. g z) sw.globals ∙ out.globals z nx)
                (omega (arith, sw.clock, out.clock)) h,
            Switchable-frame m m₄ z same (sw.variants z ny ∙ out.variants z nx) w,
          )

      last : x ≢ y → Held m₄ x × Switchable m₄ x
      last n = (
        Held-frame m₃ m₄ x (sw.others x n) (ap (λ g. g x) sw.globals) sw.clock out.held,
        inr (ap (λ t. t.state) (sw.others x n) ∙ out.state, sw.variants x n ∙ out.variant),
      )

      rotated-waiting : (z : ℕ) → z ≢ y → 0 < count (ys ++ x ∷ []) z → Held m₄ z × Switchable m₄ z
      unfolding count
      rotated-waiting z n p = elim (Bool-cases (z == x)) [
        | inl e ↦
            let same : x ≡ z = ground arith in
            subst (λ t. Held m₄ t × Switchable m₄ t) same (last (λ q. n (sym same ∙ q)))
        | inr e ↦
            let nx : z ≢ x = ground arith in
            let (h, w) = s.waiting z (ground (arith, split-count ys x z p nx)) in still z nx n h w
      ]

      rotated-IsServing :
          Held m₃ y
          → laws.contents m₄.worker.runqueue runqueue ≡ y ∷ ys ++ x ∷ []
          → laws.valid m₄.worker.runqueue
          → IsServing laws m₄ y (ys ++ x ∷ [])
      rotated-IsServing h c v = record {
        valid = v;
        contents = c;
        serves = sw.serves;
        deadline = sw.deadline;
        loaded = sw.loaded;
        runs = sw.runs;
        base = sw.base_variant ∙ out.base_variant ∙ s.base;
        held = record {
          nonnull = h.nonnull;
          names = sw.names ∙ h.names;
          memory = sw.memory ∙ h.memory;
          cells = h.cells;
          live = subst (λ g. IsLive (g y) h.cells) (sym sw.globals) h.live;
          writable = h.writable;
          changed = ground (arith, sw.changed);
        };
        waiting = λ z p. rotated-waiting z (never-again z p) p;
      }

  first-waits : (y : ℕ) (ys : List ℕ) → 0 < count (y ∷ ys) y
  unfolding count
  first-waits y ys = ground arith

  requeued-Held : (m : Machine H) (h' : H) (x : ℕ) → Held m x → Held (requeued m h') x
  requeued-Held m h' x h = Held-frame m (requeued m h') x refl refl (omega arith) h

  requeued-alone :
      (m : Machine H) (h' : H) (x : ℕ)
      → IsServing laws m x []
      → laws.valid h'
      → laws.contents h' runqueue ≡ x ∷ []
      → IsServing laws (requeued m h') x []
  unfolding count
  requeued-alone m h' x s v c = record {
    valid = v;
    contents = c;
    serves = s.serves;
    deadline = s.deadline;
    loaded = s.loaded;
    runs = s.runs;
    base = s.base;
    held = requeued-Held m h' x s.held;
    waiting = λ y p. absurd (ground arith);
  }

  -- scheduler_preemptive_sched under the FIFO policy, when it has interrupted the sandbox it
  -- serves, returns: no assertion fails. The interrupted sandbox goes to the end of the runqueue,
  -- with the lower half of its global 0 saved in its globals, the worker serves the next of the
  -- round, and all invariants of the worker hold again; a sandbox that is alone goes on. This is in
  -- a build without SANDBOX_STATE_TOTALS, with a clock that goes forward.
  pub preemptive_sched_correct :
      (m : Machine H) (current : ℕ) (others : List ℕ)
      → IsServing laws m current others
      → (m.sandboxes current).state ≡ interrupted
      → Returns (Rotated m.wasmg_0 current others) (preemptive_sched ps env m)
  unfolding preemptive_sched
  preemptive_sched_correct m x [] s i =
      let (h', r, q) =
        rotate_correct ps laws (λ id. (m.sandboxes id).state) m.worker.runqueue x [] s.valid
          s.contents s.held.nonnull i in
      let got = next-of m h' x x x [] [] s.valid s.contents s.serves r q.valid q.contents in
      let (m', e, v) =
        apply-Moved env (λ now w t. interrupt_return env.config now w t running_user) x running_user
          (requeued m h')
          (return-Kept env.config (env.later m.clock) (requeued m h').worker (m.sandboxes x)
            totals) in
      (
        m',
        ground (arith, s.serves, i, got, e),
        record {
          next = x;
          rest = [];
          order = refl;
          serving =
              Moved-IsServing running_user (requeued m h') x [] m'
                (requeued-alone m h' x s q.valid q.contents) v;
          running = inr v.state;
          first_global = inl (refl, v.wasmg_0);
        },
      )
  preemptive_sched_correct m x (y ∷ ys) s i =
      let (h', r, q) =
        rotate_correct ps laws (λ id. (m.sandboxes id).state) m.worker.runqueue x (y ∷ ys) s.valid
          s.contents s.held.nonnull i in
      let got =
        next-of m h' x x y (y ∷ ys) (ys ++ x ∷ []) s.valid s.contents s.serves r q.valid
          q.contents in
      let (n, absent) = distinct m x y ys s h' q.valid q.contents in
      let (m₂, m₃, e₂, e₃, runs, out) =
        switch-Out env totals later (requeued m h') x (requeued-Held m h' x s.held) i s.runs in
      let (held, waits) = s.waiting y (first-waits y ys) in
      let m₄ : Machine H = set_variant (some x) slow m₃ in
      let held₄ =
        Held-frame (requeued m h') m₄ y (out.others y n) (out.globals y n) out.clock
          (requeued-Held m h' y held) in
      let waits₄ =
        Switchable-frame (requeued m h') m₄ y (out.others y n) (out.variants y n) waits in
      let (m₅, e₅, sw) =
        preemptive_switch_to_lem env m₄ y ps totals (later m₄.clock) held₄ waits₄ in
      (
        m₅,
        ground (arith, s.serves, i, got, n, e₂, e₃, runs, e₅),
        record {
          next = y;
          rest = ys ++ x ∷ [];
          order = refl;
          serving =
              rotated-IsServing m x y ys s h' q.valid q.contents m₄ m₅ out sw held₄
                (ap (λ l. laws.contents l runqueue) (sw.runqueue ∙ out.runqueue) ∙ q.contents)
                (subst laws.valid (sym (sw.runqueue ∙ out.runqueue)) q.valid);
          running = sw.state;
          first_global =
              inr (out.first.0, ap (λ g. Vector.get (g x) 0) sw.globals ∙ out.first.1, out.first.2);
        },
      )
