-- ===== src/WorkerThread/Tests.antt =====
-- A worker with two sandboxes, and the theorems at it (runtime/include/scheduler.h).
use sledge_serverless_framew.Base.{
  ℕ, suc, ◌%◌, ◌^◌, ◌<◌, ◌≡◌, ◌≢◌, refl, false, true, ok, ◌==◌, if◌then◌else◌, arith, Returns, none,
  some, [], ◌∷◌, ◌++◌, inl, length,
}
use sledge_serverless_framew.Deque
use sledge_serverless_framew.Deque.{Deque, done}
use sledge_serverless_framew.Fifo.Links.{count}
use sledge_serverless_framew.Fifo.Samples.{Links, Once, links, links-Laws, sandbox}
use sledge_serverless_framew.Globals.{Global, i32}
use sledge_serverless_framew.Globals.Vector
use sledge_serverless_framew.Globals.Vector.{Vec}
use sledge_serverless_framew.Sandbox.{
  State, runnable, initialized, running_user, interrupted, asleep, send_response,
}
use sledge_serverless_framew.WorkerThread.{
  fast, running, Machine, Environment, all_there, no_response_body, pull,
}
use sledge_serverless_framew.WorkerThread.Dispatch.{preemptive_sched, cooperative_sched}
use sledge_serverless_framew.WorkerThread.Serving.{Held, IsServing}
use sledge_serverless_framew.WorkerThread.RoundRobin.{Rotated, preemptive_sched_correct}
use sledge_serverless_framew.WorkerThread.Alarms.{
  Alarms, no_alarm, alarm, rests, sets_first, Runs-IsServing, Alarms-IsServing, handle_sigalrm_lem,
}
use sledge_serverless_framew.WorkerThread.Lost.{IsAlone, cooperative_sched-forgets}
use sledge_serverless_framew.WorkerThread.Failed.{pull-ignores_failure}

abbrev env : Environment
env = record {
  config = record { state_totals = false; log_state_changes = false; admissions_control = false };
  later = suc;
  allocation = λ id. all_there;
  globals_len = λ id. 1;
  upper = 0;
}

-- Its global 0 is the shadow stack at 4096.
abbrev cells : ℕ → Global
cells i = record { type = i32; mutable = true; value = 4096 }

-- Sandbox 5 runs, and sandbox 6 has not yet run.
abbrev machine : State → Links → Machine Links
machine state queue = record {
  worker = record {
    totals = λ s. 0;
    runqueue = queue;
    admitted = 0;
    paid = λ t. false;
    remaining_budget = λ t. 0;
    current = some 5;
    deadline = 900;
    deferred_sigalrm = 0;
    effects = [];
  };
  sandboxes = λ x. record sandbox { id = x; state = if x == 5 then state else runnable };
  variant = λ x. if x == 5 then running else fast;
  base_variant = fast;
  globals = λ x. record { length = 0; capacity = 1; buffer = some cells };
  module_instance = some 5;
  wasmg_0 = 4000;
  requests = record { wrk = λ i. 9; size = 4; top = 0; bottom = 0 };
  freed = λ x. false;
  handler_depth = 0;
  clock = 100;
}

abbrev two : Links
two = (5 ∷ 6 ∷ [], [])

two-Once : Once two
unfolding count
two-Once x = ground arith

held : (state : State) (queue : Links) (x : ℕ) → x ≢ 0 → Held (machine state queue) x
held state queue x n = record {
  nonnull = n;
  names = refl;
  memory = refl;
  cells = cells;
  live = record { length = refl; buffer = refl; capacity = omega arith };
  writable = refl;
  changed = omega arith;
}

serving : (state : State) → IsServing links-Laws (machine state two) 5 (6 ∷ [])
unfolding links-Laws count
serving state = record {
  valid = two-Once;
  contents = refl;
  serves = refl;
  deadline = refl;
  loaded = refl;
  runs = refl;
  base = refl;
  held = held state two 5 (ground arith);
  waiting = λ x p. (held state two x (ground arith), inl (ground arith, ground arith));
}

later : (t : ℕ) → t < suc t
later t = omega arith

preemptive_sched_correct_example :
    Returns
      (Rotated links links-Laws env refl later 4000 5 (6 ∷ []))
      (preemptive_sched links env (machine interrupted two))
preemptive_sched_correct_example =
    preemptive_sched_correct links links-Laws env refl later (machine interrupted two) 5 (6 ∷ [])
      (serving interrupted) refl

-- Before it comes, the sandbox sets its shadow stack pointer.
abbrev sets : Machine Links → Machine Links
sets m = record m { wasmg_0 = 4080 }

sets-IsServing : IsServing links-Laws (sets (machine running_user two)) 5 (6 ∷ [])
sets-IsServing =
    Runs-IsServing links links-Laws env refl later 5 (6 ∷ []) (serving running_user)
      (sets_first 4080 rests)

-- One quantum: sandbox 5 is in user code when SIGALRM comes.
abbrev after : Machine Links
after =
    (handle_sigalrm_lem links links-Laws env refl later (sets (machine running_user two)) 5 (6 ∷ [])
      sets-IsServing refl refl).0

one_alarm : Alarms links links-Laws env refl later 1 (machine running_user two) after
one_alarm =
    alarm 5 0 refl (sets_first 4080 rests) refl refl
      (handle_sigalrm_lem links links-Laws env refl later (sets (machine running_user two)) 5
        (6 ∷ []) sets-IsServing refl refl).1
      no_alarm

Alarms-IsServing_example : IsServing links-Laws after 6 ([] ++ 5 ∷ [])
unfolding length
Alarms-IsServing_example =
    Alarms-IsServing links links-Laws env refl later (machine running_user two) after 5 6 (6 ∷ [])
      (5 ∷ []) [] (serving running_user) refl one_alarm

-- Sandbox 5 has left the runqueue.
abbrev lonely : Machine Links
lonely = machine asleep ([], [])

lonely-IsAlone : IsAlone links links-Laws env lonely 5
unfolding links-Laws count
lonely-IsAlone = record {
  valid = λ x. ground arith;
  no_sandbox = refl;
  no_cleanup = refl;
  no_request = omega arith;
  serves = refl;
  runs = refl;
  base = refl;
  held = held asleep ([], []) 5 (ground arith);
}

cooperative_sched-forgets_example :
    Returns
      (λ m'. (g : Global) × (Vector.get (m'.globals 5) 0 ≡ ok (some g)) × (g.value % 2 ^ 32 ≡ 0))
      (cooperative_sched links env false lonely)
cooperative_sched-forgets_example =
    cooperative_sched-forgets links links-Laws env lonely 5 lonely-IsAlone

-- The request 9 is in the deque, and its response body cannot be allocated.
abbrev failing : Environment
failing = record env { allocation = λ id. no_response_body }

abbrev requested : Machine Links
requested = record (machine asleep ([], [])) {
  requests = record { wrk = λ i. 9; size = 4; top = 0; bottom = 1 };
  sandboxes = λ x. record sandbox { id = x; state = initialized; memory = false };
}

pull-ignores_failure_example :
    Returns
      (λ m'.
        (m'.worker.runqueue.0 ≡ 9 ∷ [])
        × ((m'.sandboxes 9).state ≡ runnable)
        × ((m'.sandboxes 9).http ≡ none)
        × ((m'.sandboxes 9).memory ≡ false)
        × (m'.worker.effects ≡ send_response 40 500 ∷ []))
      (pull links failing requested)
unfolding links-Laws count Deque.steal Deque.steal_load Deque.read_item Deque.steal_swap
pull-ignores_failure_example =
    pull-ignores_failure links links-Laws failing refl later requested
      (record { wrk = λ i. 9; size = 4; top = 1; bottom = 1 }) 9 40 refl refl refl
      (λ x. ground arith) refl refl (ground arith) refl refl refl (omega arith)
