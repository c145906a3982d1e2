-- ===== src/PriorityQueue/Heap.antt =====
-- What a priority queue promises between two calls, and the accesses to its live cells
-- (runtime/include/priority_queue.h).
use sledge_serverless_framew.Base.{
  ℕ, zero, suc, ◌/◌, ◌≤◌, ◌<◌, ◌≡◌, ◌≢◌, refl, true, ◌||◌, not, ok, arith, ◌==◌, if◌then◌else◌,
  swapped, occurrences, occurrences-swapped,
}
use sledge_serverless_framew.PriorityQueue
use sledge_serverless_framew.PriorityQueue.{PriorityQueue, ulong_max}

-- The live cells fit the array, and none of them is NULL.
pub record IsLive (q : PriorityQueue) : Type 0 where
  pub bounded : q.size ≤ q.capacity
  pub nonnull : (i : ℕ) → 0 < i → i ≤ q.size → q.items i ≢ 0

-- The caller holds the lock of a queue that has one.
abbrev pub IsHeld : PriorityQueue → Type 0
IsHeld q = (not q.use_lock || q.locked) ≡ true

-- The heap holds the elements of another one, in another order perhaps.
pub record Rearranged (q r : PriorityQueue) : Type 0 where
  pub size : r.size ≡ q.size
  pub capacity : r.capacity ≡ q.capacity
  pub use_lock : r.use_lock ≡ q.use_lock
  pub locked : r.locked ≡ q.locked
  pub contents : (x : ℕ) → occurrences r.items q.size x ≡ occurrences q.items q.size x

pub Rearranged-refl : (q : PriorityQueue) → Rearranged q q
Rearranged-refl q = record {
  size = refl;
  capacity = refl;
  use_lock = refl;
  locked = refl;
  contents = λ x. refl;
}

pub Rearranged-trans : (p q r : PriorityQueue) → Rearranged p q → Rearranged q r → Rearranged p r
Rearranged-trans p q r h k = record {
  size = ground arith;
  capacity = ground arith;
  use_lock = ground arith;
  locked = ground arith;
  contents = λ x. ground (arith, h.contents x, k.contents x);
}

module _ (get_priority : ℕ → ℕ) where
  -- The priority of cell `i`.
  abbrev pub key : PriorityQueue → ℕ → ℕ
  key q i = get_priority (q.items i)

  -- No cell is before its parent.
  abbrev pub IsHeap : PriorityQueue → Type 0
  IsHeap q = (c : ℕ) → 2 ≤ c → c ≤ q.size → key q (c / 2) ≤ key q c

  -- `highest_priority` is the priority of the head, or ULONG_MAX.
  abbrev pub IsMemoized : PriorityQueue → Type 0
  IsMemoized q = q.highest_priority ≡ (if q.size == 0 then ulong_max else key q 1)

  pub record IsValid (q : PriorityQueue) : Type 0 where
    pub live : IsLive q
    pub heap : IsHeap q
    pub memoized : IsMemoized q

  module _ (q : PriorityQueue) where
    pub load-ok : (i : ℕ) → i ≤ q.capacity → PriorityQueue.load q i ≡ ok (q.items i)
    unfolding PriorityQueue.load
    load-ok i h = ground arith

    pub priority_at-ok :
        (i : ℕ)
        → IsLive q
        → 0 < i
        → i ≤ q.size
        → PriorityQueue.priority_at get_priority q i ≡ ok (key q i)
    unfolding PriorityQueue.priority_at PriorityQueue.load
    priority_at-ok i l p h = ground (arith, l.nonnull i)

    pub swap-ok :
        (i j : ℕ)
        → i ≤ q.capacity
        → j ≤ q.capacity
        → PriorityQueue.swap q i j ≡ ok (record q { items = swapped q.items i j })
    unfolding PriorityQueue.swap PriorityQueue.load PriorityQueue.store
    swap-ok i j p h = ground arith

    pub swap-Rearranged :
        (i j : ℕ)
        → 0 < i
        → i ≤ q.size
        → 0 < j
        → j ≤ q.size
        → Rearranged q (record q { items = swapped q.items i j })
    swap-Rearranged i j p h p' h' = record {
      size = refl;
      capacity = refl;
      use_lock = refl;
      locked = refl;
      contents = λ x. occurrences-swapped q.items q.size i j x p h p' h';
    }

    pub swap-IsLive :
        (i j : ℕ)
        → 0 < i
        → i ≤ q.size
        → 0 < j
        → j ≤ q.size
        → IsLive q
        → IsLive (record q { items = swapped q.items i j })
    swap-IsLive i j p h p' h' l = record {
      bounded = l.bounded;
      nonnull = λ c r s. ground (arith, l.nonnull c, l.nonnull i, l.nonnull j);
    }

  root_least_below :
      (k : ℕ) (q : PriorityQueue) (i : ℕ)
      → IsHeap q
      → i < k
      → 0 < i
      → i ≤ q.size
      → key q 1 ≤ key q i
  root_least_below zero q i h f p s = absurd (omega arith)
  root_least_below (suc k) q i h f p s = ground (arith, h i, root_least_below k q (i / 2) h)

  -- The head of a heap has the lowest value of all live cells.
  pub root_least : (q : PriorityQueue) (i : ℕ) → IsHeap q → 0 < i → i ≤ q.size → key q 1 ≤ key q i
  root_least q i h p s = root_least_below (suc i) q i h (omega arith) p s
