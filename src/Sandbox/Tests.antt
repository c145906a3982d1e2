-- ===== src/Sandbox/Tests.antt =====
-- Lives of a sandbox (runtime/include/sandbox_set_as_*.h), and the theorems at concrete ones.
use sledge_serverless_framew.Base.{
  ℕ, ◌+◌, ◌≡◌, refl, true, false, Run, ok, fault, panicked, arith, none, some, if◌then◌else◌, ◌==◌,
  List, [], ◌∷◌, ◌>>=◌, one_if, Whenever,
}
use sledge_serverless_framew.Sandbox.{
  State, uninitialized, allocated, initialized, runnable, Config, Sandbox, Worker, index,
  RunqueueConfig, bookkeep, state_history_append, totals_decrement, totals_increment,
}
use sledge_serverless_framew.Sandbox.Transitions.{set_as_initialized, set_as_runnable}
use sledge_serverless_framew.Sandbox.Moves.{Move, move, initialize, dispatch}
use sledge_serverless_framew.Sandbox.Time.{total}
use sledge_serverless_framew.Sandbox.Graph.{◌⟶◌, move-⟶}
use sledge_serverless_framew.Sandbox.Lifecycle.{
  RunqueueLaws, queued, finished, released, underlying, answers,
}
use sledge_serverless_framew.Sandbox.Reach.{
  Point, Reach, here, next, dispatches, initializes, Fresh, Reach-accounts,
}

-- A runqueue that is the list of its sandboxes.
abbrev count : List ℕ → ℕ → ℕ
count [] x = 0
count (a ∷ q) x = one_if a x + count q x

remove : ℕ → List ℕ → Run (List ℕ)
remove id [] = fault panicked
remove id (a ∷ q) = if a == id then ok q else (remove id q >>= λ r. ok (a ∷ r))

abbrev list_queue : RunqueueConfig (List ℕ)
list_queue = record { add_fn = λ s q. ok (s.id ∷ q); delete_fn = λ s q. remove s.id q }

count-remove :
    (id : ℕ) (q : List ℕ) (x : ℕ)
    → Whenever (λ r. count r x + one_if id x ≡ count q x) (remove id q)
unfolding remove
count-remove id [] x = tt
count-remove id (a ∷ q) x = ground (arith, count-remove id q x)

Whenever-any : (r : Run (List ℕ)) → Whenever (λ q. Unit {0}) r
Whenever-any (ok q) = tt
Whenever-any (fault e) = tt

list_queue-Laws : RunqueueLaws list_queue
list_queue-Laws = record {
  valid = λ q. Unit;
  members = count;
  add = λ s q x v. refl;
  add_valid = λ s q v. tt;
  delete = λ s q x v there. count-remove s.id q x;
  delete_valid = λ s q v there. Whenever-any (remove s.id q);
}

abbrev config : Config
config = record { state_totals = true; log_state_changes = true; admissions_control = true }

abbrev worker : Worker (List ℕ)
worker = record {
  totals = λ s. if index s == 1 then 1 else 0;
  runqueue = 8 ∷ [];
  admitted = 500;
  paid = λ t. true;
  remaining_budget = λ t. 1000;
  current = none;
  deadline = 0;
  deferred_sigalrm = 0;
  effects = [];
}

abbrev sandbox : Sandbox
sandbox = record {
  id = 7;
  state = uninitialized;
  state_history = allocated ∷ [];
  route = 3;
  tenant = 2;
  http = some 40;
  memory = false;
  last_state_change = 100;
  allocation = 100;
  dispatched = 0;
  completion = 0;
  duration_of_state = λ s. 0;
  last_state_duration = 0;
  absolute_deadline = 900;
  admissions_estimate = 20;
  total_time = 0;
}

abbrev start : Point (List ℕ)
start = record { worker = worker; sandbox = sandbox; saved = uninitialized }

-- The sandbox at the calls of `move`, which all succeed here.
abbrev after : List (ℕ × Move) → Run (Worker (List ℕ) × Sandbox) → Run (Worker (List ℕ) × Sandbox)
after [] r = r
after ((now, m) ∷ ms) r = after ms (r >>= λ (w, s). move list_queue config now m w s)

-- The state, the runqueue, the time in SANDBOX_ALLOCATED, and the totals of two states.
abbrev view : Run (Worker (List ℕ) × Sandbox) → Run (State × List ℕ × ℕ × ℕ × ℕ)
view r = r >>= λ (w, s).
    ok (s.state, w.runqueue, s.duration_of_state allocated, w.totals allocated, w.totals runnable)

dispatched :
    view (after ((130, initialize) ∷ (150, dispatch) ∷ []) (ok (worker, sandbox)))
    ≡ ok (runnable, 7 ∷ 8 ∷ [], 30, 0, 1)
unfolding move set_as_initialized set_as_runnable bookkeep state_history_append totals_decrement
    totals_increment
dispatched = refl

fresh : Fresh list_queue list_queue-Laws config 40 start
unfolding list_queue-Laws answers total
fresh = record {
  state = refl;
  saved = refl;
  http = refl;
  valid = tt;
  unqueued = refl;
  unanswered = refl;
  timed = refl;
}

-- The worker and the sandbox behind a move that returns.
abbrev got : Run (Worker (List ℕ) × Sandbox) → Worker (List ℕ) × Sandbox
got (ok r) = r
got (fault e) = (worker, sandbox)

abbrev first_move : Run (Worker (List ℕ) × Sandbox)
first_move = move list_queue config 130 initialize worker sandbox

abbrev one : Point (List ℕ)
one = record { worker = (got first_move).0; sandbox = (got first_move).1; saved = uninitialized }

abbrev second_move : Run (Worker (List ℕ) × Sandbox)
second_move = move list_queue config 150 dispatch one.worker one.sandbox

abbrev two : Point (List ℕ)
two = record { worker = (got second_move).0; sandbox = (got second_move).1; saved = uninitialized }

to_two : Reach list_queue list_queue-Laws config 40 start two
unfolding move set_as_initialized set_as_runnable bookkeep state_history_append totals_decrement
    totals_increment
to_two =
    next (next here (initializes 130 one.worker one.sandbox refl (omega arith, omega arith) refl))
      (dispatches 150 two.worker two.sandbox refl (omega arith, omega arith) refl)

Reach-accounts_example :
    (total two.sandbox.duration_of_state + two.sandbox.allocation ≡ two.sandbox.last_state_change)
    × (list_queue-Laws.members two.worker.runqueue two.sandbox.id
        ≡ queued (underlying two.sandbox.state two.saved))
    × (answers 40 two.worker.effects
        ≡ (if finished (underlying two.sandbox.state two.saved) then 1 else 0))
    × (finished (underlying two.sandbox.state two.saved) ≡ true → two.sandbox.http ≡ none)
    × (released (underlying two.sandbox.state two.saved) ≡ true → two.sandbox.memory ≡ false)
Reach-accounts_example = Reach-accounts list_queue list_queue-Laws config 40 fresh to_two

move-⟶_example : initialized ⟶ two.sandbox.state
unfolding move set_as_initialized set_as_runnable bookkeep state_history_append totals_decrement
    totals_increment
move-⟶_example =
    move-⟶ list_queue config 150 one.worker one.sandbox dispatch {w' = two.worker} refl refl
