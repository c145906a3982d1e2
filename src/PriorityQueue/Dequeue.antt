-- ===== src/PriorityQueue/Dequeue.antt =====
-- priority_queue_dequeue_if_earlier takes the element with the lowest priority value
-- (runtime/include/priority_queue.h).
use sledge_serverless_framew.Base.{
  ℕ, ◌≤◌, ◌<◌, ◌≡◌, refl, true, false, ◌||◌, ok, arith, some, none, leb, ◌==◌, Returns, ◌⊎◌,
}
use sledge_serverless_framew.PriorityQueue
use sledge_serverless_framew.PriorityQueue.{PriorityQueue, ulong_max}
use sledge_serverless_framew.PriorityQueue.Heap.{IsHeld, key, IsValid, load-ok, root_least}
use sledge_serverless_framew.PriorityQueue.Remove.{Without, remove_at-Without}

module _ (get_priority : ℕ → ℕ) where
  -- What a successful dequeue returns: the head, which no live element precedes.
  pub record Taken (q : PriorityQueue) (p : ℕ) (r : PriorityQueue) : Type 0 where
    pub valid : IsValid get_priority r
    pub without : Without p q r
    pub head : p ≡ q.items 1
    pub least : (i : ℕ) → 0 < i → i ≤ q.size → get_priority p ≤ key get_priority q i

  pub dequeue_if_earlier_nolock-Taken :
      (q : PriorityQueue) (deadline : ℕ)
      → IsValid get_priority q
      → IsHeld q
      → 0 < q.size
      → key get_priority q 1 < deadline
      → Returns
          (λ r. (r.1 ≡ some (q.items 1)) × Taken q (q.items 1) r.0)
          (PriorityQueue.dequeue_if_earlier_nolock get_priority false q deadline)
  unfolding PriorityQueue.dequeue_if_earlier_nolock PriorityQueue.is_empty
  dequeue_if_earlier_nolock-Taken q deadline v held n lt =
      let go : (q.size == 0 || leb deadline q.highest_priority) ≡ false =
        ground (arith, v.memoized) in
      let (r, e, (w, m, valid)) = remove_at-Without get_priority q 1 v held (omega arith) n in
      rw (held, go, load-ok get_priority q 1 (omega (arith, v.live.bounded)), e)
        (
          (r, some (q.items 1)),
          refl,
          (
            refl,
            record {
              valid = valid (λ h. absurd (omega arith));
              without = w;
              head = refl;
              least = λ i p h. root_least get_priority q i v.heap p h;
            },
          ),
        )

  -- Of an empty queue, and of one whose head is not before the deadline, nothing is taken.
  pub dequeue_if_earlier_nolock-none :
      (q : PriorityQueue) (deadline : ℕ)
      → IsValid get_priority q
      → IsHeld q
      → (q.size ≡ 0) ⊎ (deadline ≤ key get_priority q 1)
      → deadline ≤ ulong_max
      → PriorityQueue.dequeue_if_earlier_nolock get_priority false q deadline ≡ ok (q, none)
  unfolding PriorityQueue.dequeue_if_earlier_nolock PriorityQueue.is_empty
  dequeue_if_earlier_nolock-none q deadline v held h m =
      let stop : (q.size == 0 || leb deadline q.highest_priority) ≡ true =
        ground (arith, v.memoized) in
      rw (held, stop)
