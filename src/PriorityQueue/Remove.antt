-- ===== src/PriorityQueue/Remove.antt =====
-- The last element of a priority queue takes the place of one that leaves it
-- (runtime/include/priority_queue.h).
use native.Mathlib.Decide.{ℕ_discrete}
use sledge_serverless_framew.Base.{
  ℕ, zero, suc, ◌+◌, ◌-◌, ◌/◌, ◌≤◌, ◌<◌, ◌≡◌, true, false, arith, leb, update, Returns, Returns-map,
  ◌⊎◌, inl, inr, one_if, occurrences, occurrences-update, occurrences-update_above,
}
use sledge_serverless_framew.PriorityQueue
use sledge_serverless_framew.PriorityQueue.{PriorityQueue, ulong_max}
use sledge_serverless_framew.PriorityQueue.Heap.{
  IsLive, IsHeld, key, IsHeap, IsMemoized, IsValid, load-ok,
}
use sledge_serverless_framew.PriorityQueue.Down.{DownInv}
use sledge_serverless_framew.PriorityQueue.Settle.{Settled, percolate_down-Settled}

-- `r` has the elements of `q` without one `p`.
pub record Without (p : ℕ) (q r : PriorityQueue) : Type 0 where
  pub live : IsLive r
  pub size : r.size + 1 ≡ q.size
  pub capacity : r.capacity ≡ q.capacity
  pub use_lock : r.use_lock ≡ q.use_lock
  pub locked : r.locked ≡ q.locked
  pub contents : (y : ℕ) → occurrences r.items r.size y + one_if p y ≡ occurrences q.items q.size y

-- The queue that is handed to priority_queue_percolate_down.
abbrev pub removed : PriorityQueue → ℕ → PriorityQueue
removed q i = record q {
  items = update (update q.items i (q.items q.size)) q.size 0;
  size = q.size - 1;
}

removed-contents :
    (f : ℕ → ℕ) (n i y : ℕ)
    → 0 < i
    → i ≤ suc n
    → occurrences (update (update f i (f (suc n))) (suc n) 0) n y + one_if (f i) y
      ≡ occurrences f (suc n) y
unfolding occurrences
removed-contents f n i y p h = elim (ℕ_discrete i (suc n)) [
  | yes e ↦ ground (
    arith,
    occurrences-update_above (update f i (f (suc n))) n (suc n) 0 y (omega arith),
    occurrences-update_above f n i (f (suc n)) y (omega arith),
  )
  | no ne ↦ ground (
    arith,
    occurrences-update_above (update f i (f (suc n))) n (suc n) 0 y (omega arith),
    occurrences-update f n i (f (suc n)) y p (omega arith),
  )
]

removed-contents_pred :
    (f : ℕ → ℕ) (m i y : ℕ)
    → 0 < i
    → i ≤ m
    → occurrences (update (update f i (f m)) m 0) (m - 1) y + one_if (f i) y ≡ occurrences f m y
removed-contents_pred f zero i y p h = absurd (omega arith)
removed-contents_pred f (suc n) i y p h =
    let e : suc n - 1 ≡ n = omega arith in rw e (removed-contents f n i y p h)

pub removed-IsLive :
    (q : PriorityQueue) (i : ℕ) → IsLive q → 0 < i → i ≤ q.size → IsLive (removed q i)
removed-IsLive q i l p h = record {
  bounded = omega (arith, l.bounded);
  nonnull = λ c r s. ground (arith, l.nonnull c, l.nonnull q.size);
}

module _ (get_priority : ℕ → ℕ) where
  -- The element in the last cell may stand under the parent of cell `i`.
  abbrev pub Fits : PriorityQueue → ℕ → Type 0
  Fits q i = 2 ≤ i → key get_priority q (i / 2) ≤ key get_priority q q.size

  removed-DownInv :
      (q : PriorityQueue) (i : ℕ)
      → IsHeap get_priority q
      → Fits q i
      → 0 < i
      → i ≤ q.size
      → DownInv get_priority (removed q i) i
  removed-DownInv q i heap fits p h = record {
    edges = λ c two s ne. ground (arith, heap c, fits);
    bridged = λ c two s e r. ground (arith, heap c, heap i);
  }

  removed-IsMemoized :
      (q : PriorityQueue) (i : ℕ)
      → IsMemoized get_priority q
      → 0 < i
      → i ≤ q.size
      → IsMemoized get_priority (removed q i) ⊎ (i ≡ 1)
  removed-IsMemoized q i m p h = elim (ℕ_discrete i 1) [
    | yes e ↦ inr e
    | no ne ↦ inl (ground arith)
  ]

  pub remove_at-ok :
      (q : PriorityQueue) (i : ℕ)
      → IsLive q
      → 0 < i
      → i ≤ q.size
      → PriorityQueue.remove_at get_priority false q i
        ≡ PriorityQueue.percolate_down get_priority false (removed q i) i
  unfolding PriorityQueue.remove_at PriorityQueue.store
  remove_at-ok q i l p h =
      let a : leb i q.capacity ≡ true = ground (arith, l.bounded) in
      let b : leb q.size q.capacity ≡ true = ground (arith, l.bounded) in
      rw (load-ok get_priority q q.size l.bounded, a, b)

  Settled-Without :
      (q r : PriorityQueue) (i : ℕ)
      → 0 < i
      → i ≤ q.size
      → Settled get_priority (removed q i) i r
      → Without (q.items i) q r
  Settled-Without q r i p h s = record {
    live = s.live;
    size = omega (arith, s.same.size);
    capacity = s.same.capacity;
    use_lock = s.same.use_lock;
    locked = s.same.locked;
    contents =
        λ y. rw (s.same.size, s.same.contents y) (removed-contents_pred q.items q.size i y p h);
  }

  -- Removing cell `i` removes that element alone; the heap order survives if the last element fits.
  pub remove_at-Without :
      (q : PriorityQueue) (i : ℕ)
      → IsValid get_priority q
      → IsHeld q
      → 0 < i
      → i ≤ q.size
      → Returns
          (λ r.
            Without (q.items i) q r
            × IsMemoized get_priority r
            × (Fits q i → IsValid get_priority r))
          (PriorityQueue.remove_at get_priority false q i)
  remove_at-Without q i v held p h = rw (remove_at-ok q i v.live p h) (
      Returns-map _
        (percolate_down-Settled get_priority (removed q i) i (removed-IsLive q i v.live p h) held p
          (omega arith))
        λ r s.
          let memo = s.memoized (removed-IsMemoized q i v.memoized p h) in
          (
            Settled-Without q r i p h s,
            memo,
            λ fits. record {
              live = s.live;
              heap = s.ordered (removed-DownInv q i v.heap fits p h);
              memoized = memo;
            },
          ))
