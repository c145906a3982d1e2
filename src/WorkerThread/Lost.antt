-- ===== src/WorkerThread/Lost.antt =====
-- The global 0 of a sandbox at the cooperative switch (scheduler_cooperative_sched of
-- runtime/include/scheduler.h).
use sledge_serverless_framew.Base.{
  ℕ, ◌+◌, ◌*◌, ◌%◌, ◌^◌, ◌≤◌, ◌≡◌, refl, ap, ◌∙◌, false, ok, arith, Returns, none, some, [],
}
use sledge_serverless_framew.Deque
use sledge_serverless_framew.Deque.{Deque, enoent}
use sledge_serverless_framew.Fifo.Links.{runqueue, cleanup, PsList, PsListLaws}
use sledge_serverless_framew.Fifo.Rotation.{get_next-nil}
use sledge_serverless_framew.Globals.{Global}
use sledge_serverless_framew.Globals.Vector
use sledge_serverless_framew.Globals.Cells.{get-live}
use sledge_serverless_framew.WorkerThread.{
  fast, running, Machine, Environment, fifo_get_next, pull, cleanup_queue_free, free_all,
  clear_current,
}
use sledge_serverless_framew.WorkerThread.Dispatch.{
  cooperative_sched, switch_to_base_context, context_switch, set_variant,
}
use sledge_serverless_framew.WorkerThread.Preempt.{
  write_back-saved, saved, saved_cells, saved_globals, saved-IsLive,
}
use sledge_serverless_framew.WorkerThread.Serving.{Held}

-- A deque without requests.
steal-empty : (q : Deque) → q.bottom ≤ q.top → Deque.steal q ≡ ok (q, enoent, none)
unfolding Deque.steal Deque.steal_load Deque.read_item
steal-empty q h = ground arith

zero-low : (upper : ℕ) → (0 % 2 ^ 32 + upper * 2 ^ 32) % 2 ^ 32 ≡ 0
zero-low upper = omega arith

module _ {H : Type 0} (ps : PsList H) (laws : PsListLaws ps) (env : Environment) (m : Machine H)
    (x : ℕ) where
  -- The worker has nothing else to do, and nothing to clean up.
  pub record IsAlone : Type 0 where
    pub valid : laws.valid m.worker.runqueue
    pub no_sandbox : laws.contents m.worker.runqueue runqueue ≡ []
    pub no_cleanup : laws.contents m.worker.runqueue cleanup ≡ []
    pub no_request : m.requests.bottom ≤ m.requests.top
    pub serves : m.worker.current ≡ some x
    pub runs : m.variant x ≡ running
    pub base : m.base_variant ≡ fast
    pub held : Held m x

  -- The machine when the sandbox is no longer the current one.
  abbrev cleared : Machine H
  cleared = record (clear_current m) {
    worker = record (clear_current m).worker { deferred_sigalrm = 0 };
  }

  idle-next : IsAlone → fifo_get_next ps env cleared ≡ ok (cleared, none)
  unfolding fifo_get_next pull clear_current
  idle-next a = ground (
    arith,
    get_next-nil ps laws m.worker.runqueue a.valid a.no_sandbox,
    steal-empty m.requests a.no_request,
  )

  nothing-freed : IsAlone → cleanup_queue_free ps cleared ≡ ok cleared
  unfolding cleanup_queue_free free_all clear_current
  nothing-freed a = ground (arith, laws.visited m.worker.runqueue cleanup a.valid, a.no_cleanup)

  cleared-Held : IsAlone → Held cleared x
  unfolding clear_current
  cleared-Held a = record {
    nonnull = a.held.nonnull;
    names = a.held.names;
    memory = a.held.memory;
    cells = a.held.cells;
    live = a.held.live;
    writable = a.held.writable;
    changed = a.held.changed;
  }

  -- The last steps of scheduler_cooperative_sched.
  to-base :
      (a : IsAlone)
      → Returns
          (λ m'. m'.globals ≡ (saved env cleared x (cleared-Held a)).globals)
          (switch_to_base_context ps env (some x) (saved env cleared x (cleared-Held a)))
  unfolding switch_to_base_context context_switch clear_current
  to-base a = (
    set_variant none running (set_variant (some x) fast (saved env cleared x (cleared-Held a))),
    ground (arith, a.runs, a.base),
    refl,
  )

  written :
      (a : IsAlone)
      → Vector.get ((saved env cleared x (cleared-Held a)).globals x) 0
        ≡ ok (some (saved_cells env cleared x (cleared-Held a) 0))
  written a =
      let h = cleared-Held a in
      ap (λ v. Vector.get v 0) (ground arith)
      ∙ get-live (saved_globals env cleared x h) (saved_cells env cleared x h) 0
          (saved-IsLive env cleared x h) h.live.capacity

  -- scheduler_cooperative_sched writes the global 0 of the module instance back to the sandbox that
  -- sleeps when current_sandbox_set(NULL) has cleared it: whatever the global was, the sandbox
  -- finds 0 in its lower half. This is shown for a sandbox that leaves its worker idle.
  pub cooperative_sched-forgets :
      IsAlone
      → Returns
          (λ m'.
            (g : Global) × (Vector.get (m'.globals x) 0 ≡ ok (some g)) × (g.value % 2 ^ 32 ≡ 0))
          (cooperative_sched ps env false m)
  unfolding cooperative_sched clear_current
  cooperative_sched-forgets a =
      let h = cleared-Held a in
      let (m', e, g) = to-base a in
      (
        m',
        ground (arith, a.serves, nothing-freed a, idle-next a, write_back-saved env cleared x h, e),
        (
          saved_cells env cleared x h 0,
          ap (λ f. Vector.get (f x) 0) g ∙ written a,
          zero-low env.upper,
        ),
      )
