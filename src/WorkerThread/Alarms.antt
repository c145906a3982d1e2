-- ===== src/WorkerThread/Alarms.antt =====
-- SIGALRM on a worker that serves a sandbox, once and again and again
-- (runtime/src/software_interrupt.c).
use mathlib.Core.List.{append_assoc, append-nil, head-eq_of_cons-eq, tail-eq_of_cons-eq}
use sledge_serverless_framew.Base.{
  ℕ, suc, length, Returns-ok, ◌<◌, ◌≡◌, refl, sym, ap, ◌∙◌, false, true, ◌||◌, ◌==◌, update, inl,
  inr, Bool-cases, ok, arith, Returns, some, List, [], ◌∷◌, ◌++◌,
}
use mathlib.Core.Path.{subst}
use sledge_serverless_framew.Deque.{Deque}
use sledge_serverless_framew.Fifo.Links.{runqueue, PsList, PsListLaws}
use sledge_serverless_framew.Globals.{Global, is_unused}
use sledge_serverless_framew.Globals.Vector.{Vec}
use sledge_serverless_framew.Globals.Cells.{IsLive}
use sledge_serverless_framew.Sandbox.{State, Worker, running_user, interrupted}
use sledge_serverless_framew.Sandbox.Transitions.{sandbox_interrupt}
use sledge_serverless_framew.WorkerThread.{Machine, Environment}
use sledge_serverless_framew.WorkerThread.Frame.{Moved, apply-Moved}
use sledge_serverless_framew.WorkerThread.Serving.{Held, IsServing}
use sledge_serverless_framew.WorkerThread.RoundRobin.{
  Rotated, preemptive_sched_correct, Moved-IsServing,
}
use sledge_serverless_framew.WorkerThread.Frame.{interrupt-Kept}
use sledge_serverless_framew.WorkerThread.Preempt.{Held-frame, Switchable-frame}
use sledge_serverless_framew.WorkerThread.Signals.{handle_sigalrm}

module _ {H : Type 0} (ps : PsList H) (laws : PsListLaws ps) (env : Environment)
    (totals : env.config.state_totals ≡ false) (later : (t : ℕ) → t < env.later t) where
  -- SIGALRM in the code of the sandbox that a worker serves: the handler returns, the sandbox goes
  -- to the end of the runqueue, and the worker serves the next of the round.
  pub handle_sigalrm_lem :
      (m : Machine H) (current : ℕ) (others : List ℕ)
      → IsServing laws m current others
      → (m.sandboxes current).state ≡ running_user
      → m.handler_depth ≡ 0
      → Returns
          (Rotated ps laws env totals later m.wasmg_0 current others)
          (handle_sigalrm ps env m)
  unfolding handle_sigalrm
  handle_sigalrm_lem m x others s u d =
      let (m₁, e, v) =
        apply-Moved env (λ now w t. sandbox_interrupt env.config now w t) x interrupted m
          (interrupt-Kept env.config (env.later m.clock) m.worker (m.sandboxes x) totals
            (omega (arith, later m.clock, s.held.changed))) in
      let (m₂, e₂, r) =
        preemptive_sched_correct ps laws env totals later m₁ x others
          (Moved-IsServing ps laws env totals later interrupted m x others m₁ s v) v.state in
      (
        m₂,
        ground (arith, s.serves, u, d, e, e₂),
        subst (λ first. Rotated ps laws env totals later first x others m₂) v.wasmg_0 r,
      )

  -- What happens in the quantum of the sandbox `x` that is served: it moves from state to state, it
  -- sets the global 0 of the module instance, it writes its other globals, alarms are deferred and
  -- replayed, with the rest of the worker's bookkeeping, and requests come into the global queue.
  pub data Runs (x : ℕ) (m : Machine H) : Machine H → Type 0 where
    rests : Runs x m m
    does : {m₁ m₂ : Machine H} (into : State) → Runs x m m₁ → Moved env x into m₁ m₂ → Runs x m m₂
    sets_first : {m₁ : Machine H} (v : ℕ) → Runs x m m₁ → Runs x m (record m₁ { wasmg_0 = v })
    sets_globals :
        {m₁ : Machine H} (globals : Vec Global) (cells : ℕ → Global)
        → Runs x m m₁
        → IsLive globals cells
        → (is_unused (cells 0).type || (cells 0).mutable) ≡ true
        → Runs x m (record m₁ { globals = update m₁.globals x globals })
    bookkeeps :
        {m₁ : Machine H} (w : Worker H)
        → Runs x m m₁
        → w.runqueue ≡ m₁.worker.runqueue
        → w.current ≡ m₁.worker.current
        → w.deadline ≡ m₁.worker.deadline
        → Runs x m (record m₁ { worker = w })
    requested :
        {m₁ : Machine H} (queue : Deque) → Runs x m m₁ → Runs x m (record m₁ { requests = queue })

  -- So many quanta, each ended by SIGALRM in the code of the sandbox that is served.
  pub data Alarms : ℕ → Machine H → Machine H → Type 0 where
    no_alarm : {m : Machine H} → Alarms 0 m m
    alarm :
        {m m₁ m₂ m₃ : Machine H} (x n : ℕ)
        → m.worker.current ≡ some x
        → Runs x m m₁
        → (m₁.sandboxes x).state ≡ running_user
        → m₁.handler_depth ≡ 0
        → handle_sigalrm ps env m₁ ≡ ok m₂
        → Alarms n m₂ m₃
        → Alarms (suc n) m m₃

  Held-written :
      (m : Machine H) (x y : ℕ) (globals : Vec Global) (cells : ℕ → Global)
      → IsLive globals cells
      → (is_unused (cells 0).type || (cells 0).mutable) ≡ true
      → Held m y
      → Held (record m { globals = update m.globals x globals }) y
  Held-written m x y globals cells l w h =
      let m' : Machine H = record m { globals = update m.globals x globals } in
      elim (Bool-cases (y == x)) [
        | inl e ↦ record {
          nonnull = h.nonnull;
          names = h.names;
          memory = h.memory;
          cells = cells;
          live = subst (λ v. IsLive v cells) (ground (arith, e)) l;
          writable = w;
          changed = h.changed;
        }
        | inr e ↦ Held-frame m m' y refl (ground (arith, e)) (omega arith) h
      ]

  -- What an IsServing is made of, on a machine that keeps what it tells of the worker and the
  -- sandboxes.
  reserved :
      (m m' : Machine H) (x : ℕ) (others : List ℕ)
      → IsServing laws m x others
      → m'.worker.runqueue ≡ m.worker.runqueue
      → m'.worker.current ≡ m.worker.current
      → m'.worker.deadline ≡ m.worker.deadline
      → m'.sandboxes ≡ m.sandboxes
      → m'.variant ≡ m.variant
      → m'.base_variant ≡ m.base_variant
      → m'.module_instance ≡ m.module_instance
      → ((y : ℕ) → Held m y → Held m' y)
      → IsServing laws m' x others
  reserved m m' x others s q c d b v bv i h = record {
    valid = subst laws.valid (sym q) s.valid;
    contents = ap (λ r. laws.contents r runqueue) q ∙ s.contents;
    serves = c ∙ s.serves;
    deadline = d ∙ s.deadline ∙ ap (λ f. (f x).absolute_deadline) (sym b);
    loaded = i ∙ s.loaded;
    runs = ap (λ f. f x) v ∙ s.runs;
    base = bv ∙ s.base;
    held = h x s.held;
    waiting = λ y p.
        let (held, ready) = s.waiting y p in
        (h y held, Switchable-frame m m' y (ap (λ f. f y) b) (ap (λ f. f y) v) ready);
  }

  pub Runs-IsServing :
      (x : ℕ) (others : List ℕ) {m m' : Machine H}
      → IsServing laws m x others
      → Runs x m m'
      → IsServing laws m' x others
  Runs-IsServing x others s rests = s
  Runs-IsServing x others {m' = m'} s (does {m₁ = m₁} into r v) =
      Moved-IsServing ps laws env totals later into m₁ x others m' (Runs-IsServing x others s r) v
  Runs-IsServing x others s (sets_first {m₁ = m₁} v r) =
      reserved m₁ (record m₁ { wasmg_0 = v }) x others (Runs-IsServing x others s r) refl refl refl
        refl refl refl refl (λ y h. Held-frame m₁ _ y refl refl (omega arith) h)
  Runs-IsServing x others s (sets_globals {m₁ = m₁} globals cells r l w) =
      reserved m₁ (record m₁ { globals = update m₁.globals x globals }) x others
        (Runs-IsServing x others s r) refl refl refl refl refl refl refl
        (λ y h. Held-written m₁ x y globals cells l w h)
  Runs-IsServing x others s (bookkeeps {m₁ = m₁} w r q c d) =
      reserved m₁ (record m₁ { worker = w }) x others (Runs-IsServing x others s r) q c d refl refl
        refl refl (λ y h. Held-frame m₁ _ y refl refl (omega arith) h)
  Runs-IsServing x others s (requested {m₁ = m₁} queue r) =
      reserved m₁ (record m₁ { requests = queue }) x others (Runs-IsServing x others s r) refl refl
        refl refl refl refl refl (λ y h. Held-frame m₁ _ y refl refl (omega arith) h)

  alarms_lem :
      (k : ℕ) (m m' : Machine H)
      → Alarms k m m'
      → (current z : ℕ) (others xs ys : List ℕ) → k ≡ length xs
      → IsServing laws m current others
      → current ∷ others ≡ xs ++ z ∷ ys
      → IsServing laws m' z (ys ++ xs)
  unfolding length
  alarms_lem k m m' no_alarm current z others [] ys n s e =
      subst (λ l. IsServing laws m z l) (tail-eq_of_cons-eq e ∙ sym (append-nil ys))
        (subst (λ c. IsServing laws m c others) (head-eq_of_cons-eq e) s)
  alarms_lem k m m' no_alarm current z others (a ∷ xs) ys n s e = absurd (omega (arith, n))
  alarms_lem k m m' (alarm x j c r u d g t) current z others [] ys n s e = absurd (omega (arith, n))
  alarms_lem k m m' (alarm {m₁ = m₁} {m₂ = m₂} x j c r u d g t) current z others (a ∷ xs) ys n s e =
      let same : x ≡ current = ground (arith, c, s.serves) in
      let s₁ = Runs-IsServing current others s (subst (λ y. Runs y m m₁) same r) in
      let rot =
        Returns-ok (handle_sigalrm ps env m₁) m₂
          (handle_sigalrm_lem m₁ current others s₁ (ap (λ y. (m₁.sandboxes y).state) (sym same) ∙ u)
            d)
          g in
      let order : rot.next ∷ rot.rest ≡ xs ++ z ∷ (ys ++ a ∷ []) =
        sym rot.order
        ∙ ap (λ l. l ++ current ∷ []) (tail-eq_of_cons-eq e)
        ∙ append_assoc xs (z ∷ ys) (current ∷ [])
        ∙ ap (λ y. xs ++ z ∷ (ys ++ y ∷ [])) (head-eq_of_cons-eq e) in
      subst (λ l. IsServing laws m' z l) (append_assoc ys (a ∷ []) xs)
        (alarms_lem j m₂ m' t rot.next z rot.rest xs (ys ++ a ∷ []) (omega (arith, n)) rot.serving
          order)

  -- Every sandbox of a worker's runqueue is served, under the FIFO policy: after as many quanta as
  -- there are sandboxes before it, the worker serves it, and the sandboxes that were before it wait
  -- behind the others. In a quantum the sandbox may change its state, set global 0, write its other
  -- globals (global 0 of which stays unused or mutable) and have alarms deferred, and requests may
  -- come; it neither sleeps nor exits, and each quantum is ended by SIGALRM in user code. The build
  -- is without SANDBOX_STATE_TOTALS, and the clock goes up.
  pub Alarms-IsServing :
      (m m' : Machine H) (current z : ℕ) (others xs ys : List ℕ)
      → IsServing laws m current others
      → current ∷ others ≡ xs ++ z ∷ ys
      → Alarms (length xs) m m'
      → IsServing laws m' z (ys ++ xs)
  Alarms-IsServing m m' current z others xs ys s e a =
      alarms_lem (length xs) m m' a current z others xs ys refl s e
