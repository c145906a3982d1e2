-- ===== src/PriorityQueue/Lock.antt =====
-- What taking and releasing the lock does to an operation (runtime/include/priority_queue.h).
use sledge_serverless_framew.Base.{ℕ, ◌≡◌, sym, true, false, ok, ◌>>=◌, Bool}
use sledge_serverless_framew.PriorityQueue
use sledge_serverless_framew.PriorityQueue.{PriorityQueue, Rc}
use sledge_serverless_framew.PriorityQueue.Heap.{IsValid}

-- The queue while an operation holds its lock.
abbrev pub lock_held : PriorityQueue → PriorityQueue
lock_held q = record q { locked = true }

pub unlocked : (q : PriorityQueue) → q.locked ≡ false → record q { locked = false } ≡ q
unlocked q free i = record q { locked = sym free i }

module _ (get_priority : ℕ → ℕ) where
  pub relock :
      (q : PriorityQueue) (b : Bool)
      → IsValid get_priority q
      → IsValid get_priority (record q { locked = b })
  relock q b v = record {
    live = record { bounded = v.live.bounded; nonnull = v.live.nonnull };
    heap = v.heap;
    memoized = v.memoized;
  }

  -- The three operations, on a queue whose lock is free.
  pub enqueue-lock :
      (q : PriorityQueue) (x : ℕ)
      → q.locked ≡ false
      → PriorityQueue.enqueue get_priority q x ≡ (do
        (r, rc) ← PriorityQueue.enqueue_nolock get_priority (lock_held q) x
        ok (record r { locked = false }, rc))
  unfolding PriorityQueue.enqueue PriorityQueue.lock_lock PriorityQueue.lock_unlock
  enqueue-lock q x free = rw free

  pub dequeue-lock :
      (q : PriorityQueue) (deadline : ℕ)
      → q.locked ≡ false
      → PriorityQueue.dequeue_if_earlier get_priority false q deadline ≡ (do
        (r, o) ← PriorityQueue.dequeue_if_earlier_nolock get_priority false (lock_held q) deadline
        ok (record r { locked = false }, o))
  unfolding PriorityQueue.dequeue_if_earlier PriorityQueue.lock_lock PriorityQueue.lock_unlock
  dequeue-lock q deadline free = rw free

  pub delete-lock :
      (q : PriorityQueue) (x : ℕ)
      → q.locked ≡ false
      → PriorityQueue.delete get_priority false q x ≡ (do
        (r, rc) ← PriorityQueue.delete_nolock get_priority false (lock_held q) x
        ok (record r { locked = false }, rc))
  unfolding PriorityQueue.delete PriorityQueue.lock_lock PriorityQueue.lock_unlock
  delete-lock q x free = rw free

  -- Between two calls: a valid queue whose lock is free.
  pub record IsReady (q : PriorityQueue) : Type 0 where
    pub valid : IsValid get_priority q
    pub free : q.locked ≡ false
