-- ===== src/PriorityQueue/Api.antt =====
-- The operations that take the lock, and any sequence of them
-- (runtime/include/priority_queue.h).
use sledge_serverless_framew.Base.{
  ℕ, ◌+◌, ◌≤◌, ◌<◌, ◌≡◌, ◌≢◌, refl, true, false, arith, some, none, Returns, ◌⊎◌, inl, inr, Option,
  one_if, occurrences,
}
use native.Mathlib.Decide.{dec_lt}
use sledge_serverless_framew.PriorityQueue
use sledge_serverless_framew.PriorityQueue.{PriorityQueue, Rc, done, enospc, not_found, ulong_max}
use sledge_serverless_framew.PriorityQueue.Heap.{IsHeld, key, IsHeap, IsValid, root_least}
use sledge_serverless_framew.PriorityQueue.Lock.{
  lock_held, unlocked, relock, enqueue-lock, dequeue-lock, delete-lock, IsReady,
}
use sledge_serverless_framew.PriorityQueue.Enqueue.{enqueue_nolock-Holds, enqueue_nolock-full}
use sledge_serverless_framew.PriorityQueue.Remove.{Fits}
use sledge_serverless_framew.PriorityQueue.Dequeue.{
  Taken, dequeue_if_earlier_nolock-Taken, dequeue_if_earlier_nolock-none,
}
use sledge_serverless_framew.PriorityQueue.Delete.{
  IsFirst, search-IsFirst, delete_nolock-Without, delete_nolock-absent,
}

module _ (get_priority : ℕ → ℕ) where
  -- The queue was full and is as it was, or it has the element more.
  pub data Enqueued (q : PriorityQueue) (x : ℕ) (r : PriorityQueue × Rc) : Type 0 where
    added :
        q.size < q.capacity
        → r.1 ≡ done
        → r.0.size ≡ q.size + 1
        → r.0.capacity ≡ q.capacity
        → ((y : ℕ) → occurrences r.0.items r.0.size y ≡ one_if x y + occurrences q.items q.size y)
        → Enqueued q x r
    full : q.size ≡ q.capacity → r.1 ≡ enospc → r.0 ≡ q → Enqueued q x r

  -- priority_queue_enqueue on a valid queue whose lock is free: with room it returns 0 and adds
  -- exactly the element; a full queue is unchanged and -ENOSPC is returned. In both cases the queue
  -- is valid and its lock free again. The element is not NULL and its priority not ULONG_MAX.
  pub enqueue_correct :
      (q : PriorityQueue) (x : ℕ)
      → IsReady get_priority q
      → x ≢ 0
      → get_priority x ≢ ulong_max
      → Returns
          (λ r. IsReady get_priority r.0 × Enqueued q x r)
          (PriorityQueue.enqueue get_priority q x)
  enqueue_correct q x ready n f = elim (dec_lt q.size q.capacity) [
    | yes room ↦
        let ((r, rc), e, (h, d)) =
          enqueue_nolock-Holds get_priority (lock_held q) x (relock get_priority q true ready.valid)
            held n f room in
        rw (enqueue-lock get_priority q x ready.free, e)
          (
            (record r { locked = false }, rc),
            refl,
            (
              record { valid = relock get_priority r false h.valid; free = refl },
              added room d h.size h.capacity h.contents,
            ),
          )
    | no more ↦
        let e : q.size ≡ q.capacity = omega (arith, ready.valid.live.bounded) in
        rw
          (
            enqueue-lock get_priority q x ready.free,
            enqueue_nolock-full get_priority (lock_held q) x held n e,
          )
          (
            (record q { locked = false }, enospc),
            refl,
            (
              record { valid = relock get_priority q false ready.valid; free = refl },
              full e refl (unlocked q ready.free),
            ),
          )
  ]
    where
      held : IsHeld (lock_held q)
      held = ground arith

  -- The head was taken, which precedes no element and the deadline, or nothing was.
  pub data Dequeued (q : PriorityQueue) (deadline : ℕ) (r : PriorityQueue × Option ℕ) : Type 0 where
    taken :
        (p : ℕ)
        → r.1 ≡ some p
        → get_priority p < deadline
        → ((i : ℕ) → 0 < i → i ≤ q.size → get_priority p ≤ key get_priority q i)
        → r.0.size + 1 ≡ q.size
        → r.0.capacity ≡ q.capacity
        → ((y : ℕ) → occurrences r.0.items r.0.size y + one_if p y ≡ occurrences q.items q.size y)
        → Dequeued q deadline r
    nothing :
        r.1 ≡ none
        → r.0 ≡ q
        → ((i : ℕ) → 0 < i → i ≤ q.size → deadline ≤ key get_priority q i)
        → Dequeued q deadline r

  Taken-Dequeued :
      (q r : PriorityQueue) (deadline : ℕ)
      → key get_priority q 1 < deadline
      → Taken get_priority (lock_held q) (q.items 1) r
      → Dequeued q deadline (record r { locked = false }, some (q.items 1))
  Taken-Dequeued q r deadline lt t =
      taken (q.items 1) refl lt t.least t.without.size t.without.capacity t.without.contents

  no_earlier :
      (q : PriorityQueue) (deadline : ℕ)
      → IsHeap get_priority q
      → (q.size ≡ 0) ⊎ (deadline ≤ key get_priority q 1)
      → (i : ℕ) → 0 < i
      → i ≤ q.size
      → deadline ≤ key get_priority q i
  no_earlier q deadline heap h i p s = ground (arith, root_least get_priority q i heap p s)

  -- priority_queue_dequeue_if_earlier on a valid queue whose lock is free: if the lowest priority
  -- value is below the deadline, it takes an element of that value and nothing else; otherwise
  -- nothing changes, and no element is before the deadline. In both cases the queue is valid and its
  -- lock free again.
  pub dequeue_correct :
      (q : PriorityQueue) (deadline : ℕ)
      → IsReady get_priority q
      → deadline ≤ ulong_max
      → Returns
          (λ r. IsReady get_priority r.0 × Dequeued q deadline r)
          (PriorityQueue.dequeue_if_earlier get_priority false q deadline)
  dequeue_correct q deadline ready m = elim earlier [
    | inl (n, lt) ↦
        let ((r, o), e, (h, t)) =
          dequeue_if_earlier_nolock-Taken get_priority (lock_held q) deadline
            (relock get_priority q true ready.valid) held n lt in
        rw (dequeue-lock get_priority q deadline ready.free, e)
          (
            (record r { locked = false }, o),
            refl,
            (
              record { valid = relock get_priority r false t.valid; free = refl },
              rw h (Taken-Dequeued q r deadline lt t),
            ),
          )
    | inr late ↦
        rw
          (
            dequeue-lock get_priority q deadline ready.free,
            dequeue_if_earlier_nolock-none get_priority (lock_held q) deadline
                (relock get_priority q true ready.valid) held late m,
          )
          (
            (record q { locked = false }, none),
            refl,
            (
              record { valid = relock get_priority q false ready.valid; free = refl },
              nothing refl (unlocked q ready.free) (no_earlier q deadline ready.valid.heap late),
            ),
          )
  ]
    where
      held : IsHeld (lock_held q)
      held = ground arith

      earlier :
          ((0 < q.size) × (key get_priority q 1 < deadline))
          ⊎ ((q.size ≡ 0) ⊎ (deadline ≤ key get_priority q 1))
      earlier = ground arith

  -- The element was there, or it was not.
  pub data Deleted (q : PriorityQueue) (x : ℕ) (r : PriorityQueue × Rc) : Type 0 where
    gone :
        (j : ℕ)
        → IsFirst q x j
        → r.1 ≡ done
        → r.0.size + 1 ≡ q.size
        → ((y : ℕ) → occurrences r.0.items r.0.size y + one_if x y ≡ occurrences q.items q.size y)
        → (Fits get_priority q j → IsValid get_priority r.0)
        → Deleted q x r
    absent :
        ((c : ℕ) → 0 < c → c ≤ q.size → q.items c ≢ x) → r.1 ≡ not_found → r.0 ≡ q → Deleted q x r

  -- priority_queue_delete on a valid queue whose lock is free: the first occurrence of the element is
  -- removed and 0 returned, and the queue is valid again if the last element of the array may stand
  -- under the parent of the cell; an element that is not there leaves the queue as it was, with -1.
  pub delete_correct :
      (q : PriorityQueue) (x : ℕ)
      → IsReady get_priority q
      → x ≢ 0
      → Returns
          (λ r. (r.0.locked ≡ false) × Deleted q x r)
          (PriorityQueue.delete get_priority false q x)
  delete_correct q x ready n = elim (search-IsFirst q x q.size (omega arith)) [
    | inl (j, below, f) ↦
        let first : IsFirst (lock_held q) x j = record {
          positive = f.positive;
          inside = f.inside;
          holds = f.holds;
          first = f.first;
        } in
        let ((r, rc), e, (d, w, valid)) =
          delete_nolock-Without get_priority (lock_held q) x j
            (relock get_priority q true ready.valid) held n first in
        rw (delete-lock get_priority q x ready.free, e)
          (
            (record r { locked = false }, rc),
            refl,
            (refl, gone j f d w.size w.contents λ fits. relock get_priority r false (valid fits)),
          )
    | inr none_there ↦
        rw
          (
            delete-lock get_priority q x ready.free,
            delete_nolock-absent get_priority (lock_held q) x
                (relock get_priority q true ready.valid).live held n none_there,
          )
          (
            (record q { locked = false }, not_found),
            refl,
            (refl, absent none_there refl (unlocked q ready.free)),
          )
  ]
    where
      held : IsHeld (lock_held q)
      held = ground arith
