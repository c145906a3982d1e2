-- ===== src/PriorityQueue/Tests.antt =====
-- Runs of the priority queue (runtime/include/priority_queue.h), and its theorems at concrete
-- queues. The priority of an element is its own number.
use sledge_serverless_framew.Base.{
  ℕ, ◌≡◌, refl, true, false, ok, arith, some, Returns, ◌>>=◌, Option, List, [], ◌∷◌, Run, ◌==◌,
  if◌then◌else◌,
}
use sledge_serverless_framew.PriorityQueue
use sledge_serverless_framew.PriorityQueue.{PriorityQueue, Rc, done, enospc, not_found, ulong_max}
use sledge_serverless_framew.PriorityQueue.Heap.{IsLive, IsHeap, IsValid}
use sledge_serverless_framew.PriorityQueue.Lock.{IsReady}
use sledge_serverless_framew.PriorityQueue.Api.{
  Enqueued, Dequeued, Deleted, enqueue_correct, dequeue_correct, delete_correct,
}
use sledge_serverless_framew.PriorityQueue.Delete.{IsFirst}
use sledge_serverless_framew.PriorityQueue.Session.{Call, calls, calls-IsReady}

abbrev self : ℕ → ℕ
self p = p

-- 1 over 5 and 2, 5 over 6 and 7, 2 over 3 and 4.
abbrev cells : ℕ → ℕ
cells i =
    if i == 1
    then 1
    else if i == 2
    then 5
    else if i == 3
    then 2
    else if i == 4
    then 6
    else if i == 5
    then 7
    else if i == 6
    then 3
    else if i == 7
    then 4
    else 0

abbrev sample : PriorityQueue
sample = record {
  use_lock = true;
  locked = false;
  highest_priority = 1;
  size = 7;
  capacity = 8;
  items = cells;
}

-- The same heap without a lock.
abbrev local_sample : PriorityQueue
local_sample = record sample { use_lock = false }

sample-IsLive : IsLive sample
sample-IsLive = record { bounded = omega arith; nonnull = λ i p h. ground arith }

sample-IsHeap : IsHeap self sample
sample-IsHeap c two h = ground arith

sample-IsReady : IsReady self sample
sample-IsReady = record {
  valid = record { live = sample-IsLive; heap = sample-IsHeap; memoized = refl };
  free = refl;
}

local_sample-IsValid : IsValid self local_sample
local_sample-IsValid = record {
  live = record { bounded = omega arith; nonnull = sample-IsLive.nonnull };
  heap = sample-IsHeap;
  memoized = refl;
}

enqueue_correct_example :
    Returns (λ r. IsReady self r.0 × Enqueued self sample 4 r) (PriorityQueue.enqueue self sample 4)
enqueue_correct_example = enqueue_correct self sample 4 sample-IsReady (omega arith) (omega arith)

dequeue_correct_example :
    Returns
      (λ r. IsReady self r.0 × Dequeued self sample 3 r)
      (PriorityQueue.dequeue_if_earlier self false sample 3)
dequeue_correct_example = dequeue_correct self sample 3 sample-IsReady (omega arith)

delete_correct_example :
    Returns
      (λ r. (r.0.locked ≡ false) × Deleted self sample 2 r)
      (PriorityQueue.delete self false sample 2)
delete_correct_example = delete_correct self sample 2 sample-IsReady (omega arith)

IsFirst-six : IsFirst local_sample 6 4
IsFirst-six = record {
  positive = omega arith;
  inside = omega arith;
  holds = refl;
  first = λ c p h. ground arith;
}

abbrev session : List Call
session =
    Call.enqueue 9
    ∷ Call.enqueue 4
    ∷ Call.enqueue 7
    ∷ Call.dequeue_if_earlier 5
    ∷ Call.enqueue 2
    ∷ []

calls-IsReady_example :
    Returns (IsReady self) (PriorityQueue.initialize false 3 true >>= calls self session)
calls-IsReady_example = calls-IsReady self session 3 true (omega arith)

-- The head, the memoized head and the result of each call.
abbrev summary : Run (PriorityQueue × Option ℕ) → Run (ℕ × ℕ × Option ℕ)
summary m = m >>= λ (q, o). ok (q.items 1, q.highest_priority, o)

dequeue_run : summary (PriorityQueue.dequeue self false sample) ≡ ok (2, 2, some 1)
unfolding PriorityQueue.dequeue PriorityQueue.dequeue_if_earlier PriorityQueue.lock_lock
    PriorityQueue.lock_unlock PriorityQueue.dequeue_if_earlier_nolock PriorityQueue.is_empty
    PriorityQueue.load PriorityQueue.store PriorityQueue.remove_at PriorityQueue.percolate_down
    PriorityQueue.percolate_down_loop PriorityQueue.find_smallest_child PriorityQueue.priority_at
    PriorityQueue.swap PriorityQueue.memoize_head PriorityQueue.update_highest_priority
dequeue_run = refl
