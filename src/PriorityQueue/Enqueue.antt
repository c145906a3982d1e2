-- ===== src/PriorityQueue/Enqueue.antt =====
-- priority_queue_enqueue adds one element, or refuses a full queue
-- (runtime/include/priority_queue.h).
use sledge_serverless_framew.Base.{
  ℕ, suc, ◌+◌, ◌<◌, ◌≡◌, ◌≢◌, refl, true, false, ok, arith, ◌==◌, inl, inr, Bool-cases, Returns,
  Returns-map, one_if, occurrences, update, occurrences-update_above,
}
use sledge_serverless_framew.PriorityQueue
use sledge_serverless_framew.PriorityQueue.{PriorityQueue, Rc, done, enospc, ulong_max}
use sledge_serverless_framew.PriorityQueue.Heap.{
  IsLive, IsHeld, Rearranged, key, IsValid, priority_at-ok,
}
use sledge_serverless_framew.PriorityQueue.Up.{UpInv, percolate_up_loop-IsValid}

-- The queue behind `priority_queue_append`.
abbrev pub grown : PriorityQueue → ℕ → PriorityQueue
grown q x = record q { items = update q.items (q.size + 1) x; size = q.size + 1 }

pub append-ok :
    (q : PriorityQueue) (x : ℕ)
    → IsHeld q
    → x ≢ 0
    → q.size < q.capacity
    → PriorityQueue.append q x ≡ ok (grown q x, done)
unfolding PriorityQueue.append PriorityQueue.store
append-ok q x h n c = ground arith

append-full :
    (q : PriorityQueue) (x : ℕ)
    → IsHeld q
    → x ≢ 0
    → q.size ≡ q.capacity
    → PriorityQueue.append q x ≡ ok (q, enospc)
unfolding PriorityQueue.append
append-full q x h n c = ground arith

module _ (get_priority : ℕ → ℕ) where
  -- `r` is a valid queue with the elements of `q` and `x`.
  pub record Holds (x : ℕ) (q r : PriorityQueue) : Type 0 where
    pub valid : IsValid get_priority r
    pub size : r.size ≡ q.size + 1
    pub capacity : r.capacity ≡ q.capacity
    pub use_lock : r.use_lock ≡ q.use_lock
    pub locked : r.locked ≡ q.locked
    pub contents :
        (y : ℕ) → occurrences r.items r.size y ≡ one_if x y + occurrences q.items q.size y

  grown-contents :
      (q : PriorityQueue) (x y : ℕ)
      → occurrences (grown q x).items (q.size + 1) y ≡ one_if x y + occurrences q.items q.size y
  unfolding occurrences
  grown-contents q x y =
      let e : q.size + 1 ≡ suc q.size = omega arith in
      rw e (ground (arith, occurrences-update_above q.items q.size (suc q.size) x y (omega arith)))

  grown-IsLive :
      (q : PriorityQueue) (x : ℕ) → IsLive q → x ≢ 0 → q.size < q.capacity → IsLive (grown q x)
  grown-IsLive q x l n c = record {
    bounded = omega arith;
    nonnull = λ i p h. ground (arith, l.nonnull i);
  }

  Rearranged-Holds :
      (q r : PriorityQueue) (x : ℕ)
      → IsValid get_priority r
      → Rearranged (grown q x) r
      → Holds x q r
  Rearranged-Holds q r x v s = record {
    valid = v;
    size = s.size;
    capacity = s.capacity;
    use_lock = s.use_lock;
    locked = s.locked;
    contents = λ y. rw s.size (ground (arith, s.contents y, grown-contents q x y));
  }

  grown-UpInv :
      (q : PriorityQueue) (x : ℕ)
      → IsValid get_priority q
      → x ≢ 0
      → get_priority x ≢ ulong_max
      → 0 < q.size
      → q.size < q.capacity
      → UpInv get_priority (grown q x) (q.size + 1)
  grown-UpInv q x v n f p c = record {
    live = grown-IsLive q x v.live n c;
    positive = omega arith;
    inside = omega arith;
    edges = λ c p s ne. ground (arith, v.heap c);
    bridged = λ c p s e two. absurd (omega arith);
    memoized = ground (arith, v.memoized);
    finite = ground arith;
  }

  percolate_up-Holds :
      (q : PriorityQueue) (x : ℕ)
      → IsValid get_priority q
      → IsHeld q
      → x ≢ 0
      → get_priority x ≢ ulong_max
      → q.size < q.capacity
      → Returns (Holds x q) (PriorityQueue.percolate_up get_priority (grown q x))
  unfolding PriorityQueue.percolate_up PriorityQueue.update_highest_priority
  percolate_up-Holds q x v held n f c = elim (Bool-cases (q.size == 0)) [
    | inl e ↦
        let zero_size : q.size ≡ 0 = ground arith in
        let one : (q.size + 1 == 1) ≡ true = ground arith in
        let r : PriorityQueue = record (grown q x) {
          highest_priority = key get_priority (grown q x) 1;
        } in
        rw
          (
            held,
            one,
            priority_at-ok get_priority (grown q x) 1 (grown-IsLive q x v.live n c) (omega arith)
                (omega arith),
          )
          (
            r,
            refl,
            Rearranged-Holds q r x
                (record {
                  live = record {
                    bounded = omega arith;
                    nonnull = (grown-IsLive q x v.live n c).nonnull;
                  };
                  heap = λ c p h. absurd (omega arith);
                  memoized = ground arith;
                })
                (record {
                  size = refl;
                  capacity = refl;
                  use_lock = refl;
                  locked = refl;
                  contents = λ y. refl;
                }),
          )
    | inr e ↦
        let more : (q.size + 1 == 1) ≡ false = ground arith in
        rw (held, more)
          (Returns-map _
            (percolate_up_loop-IsValid get_priority (q.size + 1 + 1) (grown q x) (q.size + 1)
              (omega arith) (grown-UpInv q x v n f (ground arith) c))
            λ r (valid, same). Rearranged-Holds q r x valid same)
  ]

  -- On a valid queue with room priority_queue_enqueue_nolock returns 0, and the queue is again valid
  -- and holds exactly the element more.
  pub enqueue_nolock-Holds :
      (q : PriorityQueue) (x : ℕ)
      → IsValid get_priority q
      → IsHeld q
      → x ≢ 0
      → get_priority x ≢ ulong_max
      → q.size < q.capacity
      → Returns (λ r. Holds x q r.0 × (r.1 ≡ done)) (PriorityQueue.enqueue_nolock get_priority q x)
  unfolding PriorityQueue.enqueue_nolock
  enqueue_nolock-Holds q x v held n f c =
      let (r, e, h) = percolate_up-Holds q x v held n f c in
      let nonzero : (x == 0) ≡ false = ground arith in
      rw (nonzero, held, append-ok q x held n c, e) ((r, done), refl, (h, refl))

  -- A full queue is left as it is, and -ENOSPC is returned.
  pub enqueue_nolock-full :
      (q : PriorityQueue) (x : ℕ)
      → IsHeld q
      → x ≢ 0
      → q.size ≡ q.capacity
      → PriorityQueue.enqueue_nolock get_priority q x ≡ ok (q, enospc)
  unfolding PriorityQueue.enqueue_nolock
  enqueue_nolock-full q x held n e =
      let nonzero : (x == 0) ≡ false = ground arith in rw (nonzero, held, append-full q x held n e)
