-- ===== src/Scheduler/Runqueue.antt =====
-- The local runqueue of the earliest-deadline-first policy (runtime/src/local_runqueue_minheap.c).
use sledge_serverless_framew.Base.{
  ℕ, ◌+◌, ◌*◌, ◌^◌, ◌≤◌, ◌<◌, ◌≡◌, ◌≢◌, false, none, some, ok, arith, Returns, one_if, occurrences,
  ◌⊎◌, inl, inr,
}
use native.Mathlib.Decide.{dec_lt}
use sledge_serverless_framew.PriorityQueue
use sledge_serverless_framew.PriorityQueue.{PriorityQueue, done, enospc, ulong_max}
use sledge_serverless_framew.PriorityQueue.Heap.{IsHeld, IsValid, key, root_least}
use sledge_serverless_framew.PriorityQueue.Enqueue.{enqueue_nolock-Holds, enqueue_nolock-full}
use sledge_serverless_framew.PriorityQueue.Session.{grow_nolock-IsReady}
use sledge_serverless_framew.Scheduler
use sledge_serverless_framew.Scheduler.Cells.{occurrences-agree}

module _ (get_priority : ℕ → ℕ) where
  -- A runqueue of one worker: a valid heap without a lock.
  pub record IsLocal (q : PriorityQueue) : Type 0 where
    pub valid : IsValid get_priority q
    pub use_lock : q.use_lock ≡ false
    pub free : q.locked ≡ false

  -- `r` is `q` with the sandbox more.
  pub record Joined (q : PriorityQueue) (sandbox : ℕ) (r : PriorityQueue) : Type 0 where
    pub is_local : IsLocal r
    pub size : r.size ≡ q.size + 1
    pub contents :
        (y : ℕ) → occurrences r.items r.size y ≡ one_if sandbox y + occurrences q.items q.size y

  grown-held :
      (fresh : ℕ → ℕ) (q r : PriorityQueue)
      → PriorityQueue.grow_nolock false fresh q ≡ some r
      → (r.use_lock ≡ q.use_lock) × (r.locked ≡ q.locked)
  unfolding PriorityQueue.grow_nolock
  grown-held fresh q r e = ground (arith, e)

  -- local_runqueue_minheap_add of a sandbox with a deadline below ULONG_MAX returns with exactly the
  -- sandbox added, whether the heap has room or is full and grows, if `realloc` succeeds and the
  -- doubled capacity fits 64 bits.
  pub runqueue_add_correct :
      (fresh : ℕ → ℕ) (q : PriorityQueue) (sandbox : ℕ)
      → IsLocal q
      → sandbox ≢ 0
      → get_priority sandbox ≢ ulong_max
      → q.capacity * 2 < 2 ^ 64
      → Returns (Joined q sandbox) (Scheduler.runqueue_add get_priority false fresh q sandbox)
  unfolding Scheduler.runqueue_add
  runqueue_add_correct fresh q sandbox l n f fits = elim (dec_lt q.size q.capacity) [
    | yes room ↦
        let held : IsHeld q = ground (arith, l.use_lock) in
        let ((r, rc), e, (h, d)) =
          enqueue_nolock-Holds get_priority q sandbox l.valid held n f room in
        (
          r,
          ground (arith, e, d),
          record {
            is_local = record {
              valid = h.valid;
              use_lock = cc (h.use_lock, l.use_lock);
              free = cc (h.locked, l.free);
            };
            size = h.size;
            contents = h.contents;
          },
        )
    | no more ↦
        let held : IsHeld q = ground (arith, l.use_lock) in
        let full : q.size ≡ q.capacity = omega (arith, l.valid.live.bounded) in
        let (g, at, ready, larger, size, cells) =
          grow_nolock-IsReady get_priority fresh q (record { valid = l.valid; free = l.free })
            fits in
        let (use_lock, locked) = grown-held fresh q g at in
        let held' : IsHeld g = ground (arith, use_lock, l.use_lock) in
        let ((r, rc), e, (h, d)) =
          enqueue_nolock-Holds get_priority g sandbox ready.valid held' n f
            (omega (arith, size, larger, full)) in
        (
          r,
          ground (arith, enqueue_nolock-full get_priority q sandbox held n full, at, e, d),
          record {
            is_local = record {
              valid = h.valid;
              use_lock = cc (h.use_lock, use_lock, l.use_lock);
              free = cc (h.locked, locked, l.free);
            };
            size = cc (h.size, size);
            contents = λ y.
                ground
                  (arith, h.contents y, size, occurrences-agree g.items q.items q.size y cells);
          },
        )
  ]

  -- local_runqueue_minheap_get_next gives a sandbox of the runqueue whose deadline is the earliest,
  -- or NULL just when the runqueue is empty.
  pub get_next-cases :
      (q : PriorityQueue)
      → IsLocal q
      → ((q.size ≡ 0) × (Scheduler.runqueue_get_next q ≡ ok none))
        ⊎ ((0 < q.size)
            × (Scheduler.runqueue_get_next q ≡ ok (some (q.items 1)))
            × ((i : ℕ) → 0 < i → i ≤ q.size → get_priority (q.items 1) ≤ key get_priority q i))
  unfolding Scheduler.runqueue_get_next PriorityQueue.top_nolock PriorityQueue.is_empty
      PriorityQueue.load
  get_next-cases q l = elim (dec_lt 0 q.size) [
    | yes h ↦ inr (
      h,
      ground (arith, l.use_lock, l.valid.live.bounded),
      λ i p le. root_least get_priority q i l.valid.heap p le,
    )
    | no h ↦ inl (omega arith, ground (arith, l.use_lock))
  ]
