-- ===== src/PriorityQueue/Settle.antt =====
-- priority_queue_percolate_down as a whole, with the memoized head
-- (runtime/include/priority_queue.h).
use sledge_serverless_framew.Base.{
  ℕ, ◌+◌, ◌≤◌, ◌<◌, ◌≡◌, refl, true, false, ok, arith, ◌==◌, if◌then◌else◌, inl, inr, Bool-cases,
  Returns, ◌⊎◌,
}
use native.Mathlib.Numerals.{add-one}
use sledge_serverless_framew.PriorityQueue
use sledge_serverless_framew.PriorityQueue.{PriorityQueue, ulong_max}
use sledge_serverless_framew.PriorityQueue.Heap.{
  IsLive, IsHeld, Rearranged, key, IsHeap, IsMemoized, priority_at-ok,
}
use sledge_serverless_framew.PriorityQueue.Down.{
  DownInv, percolate_down_loop-Sunk, rests, down_round,
}

module _ (get_priority : ℕ → ℕ) where
  memoize_head-ok :
      (q : PriorityQueue)
      → IsLive q
      → IsHeld q
      → PriorityQueue.memoize_head get_priority q
        ≡ ok (record q {
          highest_priority = if q.size == 0 then ulong_max else key get_priority q 1;
        })
  unfolding PriorityQueue.memoize_head PriorityQueue.is_empty PriorityQueue.update_highest_priority
  memoize_head-ok q l held = elim (Bool-cases (q.size == 0)) [
    | inl e ↦ rw (held, e)
    | inr e ↦ rw (held, e, priority_at-ok get_priority q 1 l (omega arith) (ground arith))
  ]

  -- What priority_queue_percolate_down leaves.
  pub record Settled (q : PriorityQueue) (i : ℕ) (r : PriorityQueue) : Type 0 where
    pub live : IsLive r
    pub same : Rearranged q r
    pub ordered : DownInv get_priority q i → IsHeap get_priority r
    pub memoized : IsMemoized get_priority q ⊎ (i ≡ 1) → IsMemoized get_priority r

  pub percolate_down-Settled :
      (q : PriorityQueue) (i : ℕ)
      → IsLive q
      → IsHeld q
      → 0 < i
      → i ≤ q.size + 1
      → Returns (Settled q i) (PriorityQueue.percolate_down get_priority false q i)
  unfolding PriorityQueue.percolate_down
  percolate_down-Settled q i l held p h =
      let (r, e, s) =
        percolate_down_loop-Sunk get_priority (q.size + 1) q i (omega arith) (omega arith) l held
          p in
      let held' : IsHeld r = rw (s.same.use_lock, s.same.locked) held in
      elim (Bool-cases (i == 1)) [
        | inl one ↦
            rw (held, e, one, memoize_head-ok r s.live held')
              (
                record r {
                  highest_priority = if r.size == 0 then ulong_max else key get_priority r 1;
                },
                refl,
                record {
                  live = record { bounded = s.live.bounded; nonnull = s.live.nonnull };
                  same = record {
                    size = s.same.size;
                    capacity = s.same.capacity;
                    use_lock = s.same.use_lock;
                    locked = s.same.locked;
                    contents = s.same.contents;
                  };
                  ordered = s.ordered;
                  memoized = λ m. refl;
                },
              )
        | inr other ↦
            rw (held, e, other)
              (
                r,
                refl,
                record {
                  live = s.live;
                  same = s.same;
                  ordered = s.ordered;
                  memoized = λ m. ground (arith, s.highest_priority, s.same.size, s.kept 1);
                },
              )
      ]

  -- An element that rests where it stands is left there.
  pub percolate_down-rests :
      (q : PriorityQueue) (i : ℕ)
      → IsLive q
      → IsHeld q
      → 2 ≤ i
      → rests get_priority q i ≡ true
      → PriorityQueue.percolate_down get_priority false q i ≡ ok q
  unfolding PriorityQueue.percolate_down
  percolate_down-rests q i l held p t =
      let round : PriorityQueue.percolate_down_loop get_priority (q.size + 1) q i ≡ ok q =
        rw (add-one, down_round get_priority q.size q i l held (omega arith), t) in
      let other : (i == 1) ≡ false = ground arith in rw (held, round, other)
