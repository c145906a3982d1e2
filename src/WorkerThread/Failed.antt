-- ===== src/WorkerThread/Failed.antt =====
-- A request whose preparation fails, under the FIFO policy (scheduler_fifo_get_next of
-- runtime/include/scheduler.h and sandbox_prepare_execution_environment of runtime/src/sandbox.c).
use sledge_serverless_framew.Base.{
  ℕ, ◌≤◌, ◌<◌, ◌≡◌, ◌≢◌, ap, ◌∙◌, false, ok, update, arith, Returns, none, some, [], ◌∷◌, ◌++◌, inl,
  inr, Run-cases,
}
use sledge_serverless_framew.Deque
use sledge_serverless_framew.Deque.{Deque, done}
use sledge_serverless_framew.Fifo
use sledge_serverless_framew.Fifo.Links.{runqueue, cleanup, PsList, PsListLaws, count}
use sledge_serverless_framew.Fifo.Rotation.{append_correct}
use sledge_serverless_framew.Sandbox.{
  allocated, initialized, runnable, Config, Sandbox, Worker, RunqueueConfig, bookkeep,
  totals_increment, totals_decrement, state_history_append, admissions_control_subtract, respond,
  send_response,
}
use sledge_serverless_framew.Sandbox.Transitions.{set_as_error, error_from, set_as_runnable}
use sledge_serverless_framew.WorkerThread.{
  Machine, Environment, no_response_body, apply, abandon, prepare_execution_environment, pull,
}

module _ {H : Type 0} (queue : RunqueueConfig H) (c : Config) (now : ℕ) (w : Worker H) (s : Sandbox)
    (totals : c.state_totals ≡ false) (earlier : s.last_state_change < now) where
  abbrev Failed : ℕ → Worker H × Sandbox → Type 0
  Failed session r =
      (r.0.runqueue ≡ w.runqueue)
      × (r.0.effects ≡ w.effects ++ send_response session 500 ∷ [])
      × (r.1.id ≡ s.id)
      × (r.1.http ≡ none)
      × (r.1.memory ≡ s.memory)
      × (r.1.last_state_change ≡ now)

  error-Failed :
      (session : ℕ)
      → c.admissions_control ≡ false
      → s.http ≡ some session
      → Returns (Failed session) (set_as_error queue c now w s allocated)
  unfolding set_as_error error_from bookkeep totals_increment totals_decrement state_history_append
      admissions_control_subtract respond
  error-Failed session a h = elim (Run-cases (set_as_error queue c now w s allocated)) [
    | inl (r, e) ↦ (r, e, ground (arith, e, totals, a, h, earlier))
    | inr (reason, e) ↦ absurd (ground (arith, e, totals, a, h, earlier))
  ]

  runnable-after :
      (q : H)
      → queue.add_fn (record s { state = runnable; dispatched = now }) w.runqueue ≡ ok q
      → Returns
          (λ r.
            (r.0.runqueue ≡ q)
            × (r.0.effects ≡ w.effects)
            × (r.1.state ≡ runnable)
            × (r.1.http ≡ s.http)
            × (r.1.memory ≡ s.memory))
          (set_as_runnable queue c now w s initialized)
  unfolding set_as_runnable bookkeep totals_increment totals_decrement state_history_append
  runnable-after q a = elim (Run-cases (set_as_runnable queue c now w s initialized)) [
    | inl (r, e) ↦ (r, e, ground (arith, e, totals, a))
    | inr (reason, e) ↦ absurd (ground (arith, e, totals, a, earlier))
  ]

module _ {H : Type 0} (ps : PsList H) (laws : PsListLaws ps) (env : Environment)
    (totals : env.config.state_totals ≡ false) (later : (t : ℕ) → t < env.later t) where
  -- scheduler_fifo_get_next does not look at the result of sandbox_prepare_execution_environment: a
  -- request whose first allocation fails is put on the empty runqueue in state SANDBOX_RUNNABLE all
  -- the same, although its client is sent the response 500 and nothing else, and the sandbox has
  -- neither a session nor a memory. This is in a build without SANDBOX_STATE_TOTALS and
  -- ADMISSIONS_CONTROL, with a clock that goes up.
  pub pull-ignores_failure :
      (m : Machine H) (requests : Deque) (id session : ℕ)
      → env.config.admissions_control ≡ false
      → Deque.steal m.requests ≡ ok (requests, done, some id)
      → env.allocation id ≡ no_response_body
      → laws.valid m.worker.runqueue
      → laws.contents m.worker.runqueue runqueue ≡ []
      → laws.contents m.worker.runqueue cleanup ≡ []
      → id ≢ 0
      → (m.sandboxes id).id ≡ id
      → (m.sandboxes id).http ≡ some session
      → (m.sandboxes id).memory ≡ false
      → (m.sandboxes id).last_state_change ≤ m.clock
      → Returns
          (λ m'.
            (laws.contents m'.worker.runqueue runqueue ≡ id ∷ [])
            × ((m'.sandboxes id).state ≡ runnable)
            × ((m'.sandboxes id).http ≡ none)
            × ((m'.sandboxes id).memory ≡ false)
            × (m'.worker.effects ≡ m.worker.effects ++ send_response session 500 ∷ []))
          (pull ps env m)
  unfolding pull prepare_execution_environment abandon apply count Fifo.list_config
  pull-ignores_failure m requests id session a st al v nr nc n i h mem c =
      let now = env.later m.clock in
      let ((w, s), e, (q, sent, sid, sh, sm, sl)) =
        error-Failed (Fifo.list_config ps) env.config now m.worker (m.sandboxes id) totals
          (omega (arith, later m.clock, c)) session a h in
      let (h', ap', req) =
        append_correct ps laws m.worker.runqueue id v n (ap (λ l. count l id) nr)
          (ap (λ l. count l id) nc) in
      let added : Fifo.append ps w.runqueue s.id ≡ ok h' = cc (ap', q, sid, i) in
      let ((w', s'), e', (q', kept, st', h'', m'')) =
        runnable-after (Fifo.list_config ps) env.config (env.later now) w s totals
          (omega (arith, later now, sl)) h' added in
      let sandboxes : ℕ → Sandbox = update m.sandboxes id s in
      let again : sandboxes id ≡ s = ground arith in
      (
        record m {
          worker = w';
          sandboxes = update sandboxes id s';
          requests = requests;
          clock = env.later now;
        },
        ground (arith, st, al, e, again, e'),
        (
          ap (λ l. laws.contents l runqueue) q' ∙ req.contents ∙ ap (λ l. l ++ id ∷ []) nr,
          ground (arith, st'),
          ground (arith, h'', sh),
          ground (arith, m'', sm, mem),
          kept ∙ sent,
        ),
      )
