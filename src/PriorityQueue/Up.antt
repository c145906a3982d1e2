-- ===== src/PriorityQueue/Up.antt =====
-- priority_queue_percolate_up restores the heap after an append
-- (runtime/include/priority_queue.h).
use sledge_serverless_framew.Base.{
  ℕ, zero, suc, ◌/◌, ◌≤◌, ◌<◌, ◌≡◌, ◌≢◌, refl, Bool, true, false, ◌||◌, not, ok, arith, ltb, ◌==◌,
  if◌then◌else◌, swapped, inl, inr, Bool-cases, Returns, Returns-map,
}
use sledge_serverless_framew.PriorityQueue
use sledge_serverless_framew.PriorityQueue.{PriorityQueue, ulong_max}
use sledge_serverless_framew.PriorityQueue.Heap.{
  IsLive, Rearranged, Rearranged-refl, Rearranged-trans, key, IsHeap, IsValid, priority_at-ok,
  swap-ok, swap-Rearranged, swap-IsLive,
}

module _ (get_priority : ℕ → ℕ) where
  -- The heap is in order but for the edge over cell `i`.
  pub record UpInv (q : PriorityQueue) (i : ℕ) : Type 0 where
    pub live : IsLive q
    pub positive : 0 < i
    pub inside : i ≤ q.size
    pub edges :
        (c : ℕ) → 2 ≤ c → c ≤ q.size → c ≢ i → key get_priority q (c / 2) ≤ key get_priority q c
    pub bridged :
        (c : ℕ)
        → 2 ≤ c
        → c ≤ q.size
        → c / 2 ≡ i
        → 2 ≤ i
        → key get_priority q (i / 2) ≤ key get_priority q c
    pub memoized : q.highest_priority ≡ key get_priority q 1
    pub finite : key get_priority q i ≢ ulong_max

  -- The queue after one round.
  abbrev risen : PriorityQueue → ℕ → PriorityQueue
  risen q i =
      let q' : PriorityQueue = record q { items = swapped q.items i (i / 2) } in
      record q' {
        highest_priority = if i / 2 == 1 then key get_priority q' 1 else q.highest_priority;
      }

  risen-UpInv :
      (q : PriorityQueue) (i : ℕ)
      → UpInv q i
      → 2 ≤ i
      → key get_priority q i < key get_priority q (i / 2)
      → UpInv (risen q i) (i / 2)
  risen-UpInv q i v h lt = record {
    live = record {
      bounded = v.live.bounded;
      nonnull =
          (swap-IsLive get_priority q i (i / 2) v.positive v.inside (omega arith)
            (omega (arith, v.inside)) v.live).nonnull;
    };
    positive = omega arith;
    inside = omega (arith, v.inside);
    edges = λ c p s ne. ground (arith, v.edges c, v.bridged c, v.edges (i / 2));
    bridged = λ c p s e r. ground (arith, v.edges c, v.edges (i / 2));
    memoized = ground (arith, v.memoized);
    finite = ground (arith, v.finite);
  }

  risen-Rearranged : (q : PriorityQueue) (i : ℕ) → UpInv q i → 2 ≤ i → Rearranged q (risen q i)
  risen-Rearranged q i v h =
      let same =
        swap-Rearranged get_priority q i (i / 2) v.positive v.inside (omega arith)
          (omega (arith, v.inside)) in
      record {
        size = same.size;
        capacity = same.capacity;
        use_lock = same.use_lock;
        locked = same.locked;
        contents = same.contents;
      }

  -- The test by which the loop ends.
  abbrev settled : PriorityQueue → ℕ → Bool
  settled q i = i / 2 == 0 || not (ltb (key get_priority q i) (key get_priority q (i / 2)))

  top-ok :
      (b : Bool) (r : PriorityQueue)
      → IsLive r
      → 0 < r.size
      → (if b then PriorityQueue.priority_at get_priority r 1 else ok r.highest_priority)
        ≡ ok (if b then key get_priority r 1 else r.highest_priority)
  top-ok true r l h = priority_at-ok get_priority r 1 l (omega arith) h
  top-ok false r l h = refl

  -- One round of the loop, with no fault.
  up_round :
      (fuel : ℕ) (q : PriorityQueue) (i : ℕ)
      → UpInv q i
      → PriorityQueue.percolate_up_loop get_priority (suc fuel) q i ≡ (
          if settled q i
          then ok q
          else PriorityQueue.percolate_up_loop get_priority fuel (risen q i) (i / 2))
  unfolding PriorityQueue.percolate_up_loop PriorityQueue.update_highest_priority
  up_round fuel q i v = elim (Bool-cases (i / 2 == 0)) [
    | inl e ↦ rw e
    | inr e ↦
        let up : i / 2 ≤ q.size = omega (arith, v.inside) in
        let finite : (key get_priority q i == ulong_max) ≡ false = ground (arith, v.finite) in
        rw
          (
            e,
            priority_at-ok get_priority q i v.live v.positive v.inside,
            priority_at-ok get_priority q (i / 2) v.live (ground arith) up,
          )
          (elim (Bool-cases (ltb (key get_priority q i) (key get_priority q (i / 2)))) [
            | inl lt ↦ rw (
              lt,
              finite,
              swap-ok get_priority q i (i / 2) (omega (arith, v.live.bounded, v.inside))
                  (omega (arith, v.live.bounded, up)),
              top-ok (i / 2 == 1) (record q { items = swapped q.items i (i / 2) })
                  (swap-IsLive get_priority q i (i / 2) v.positive v.inside (ground arith) up
                    v.live)
                  (omega (arith, v.positive, v.inside)),
            )
            | inr ge ↦ rw ge
          ])
  ]

  settled-IsHeap :
      (q : PriorityQueue) (i : ℕ) → UpInv q i → settled q i ≡ true → IsHeap get_priority q
  settled-IsHeap q i v t c p h = ground (arith, v.edges c)

  -- The loop ends with a heap of the same elements.
  pub percolate_up_loop-IsValid :
      (fuel : ℕ) (q : PriorityQueue) (i : ℕ)
      → i < fuel
      → UpInv q i
      → Returns
          (λ r. IsValid get_priority r × Rearranged q r)
          (PriorityQueue.percolate_up_loop get_priority fuel q i)
  percolate_up_loop-IsValid zero q i h v = absurd (omega arith)
  percolate_up_loop-IsValid (suc fuel) q i h v =
      rw (up_round fuel q i v) (elim (Bool-cases (settled q i)) [
        | inl t ↦ rw t (
          q,
          refl,
          (
            record {
              live = v.live;
              heap = settled-IsHeap q i v t;
              memoized = ground (arith, v.memoized, v.inside, v.positive);
            },
            Rearranged-refl q,
          ),
        )
        | inr t ↦ rw t (
            let lt : key get_priority q i < key get_priority q (i / 2) = ground arith in
            let two : 2 ≤ i = ground arith in
            Returns-map _
              (percolate_up_loop-IsValid fuel (risen q i) (i / 2) (omega arith)
                (risen-UpInv q i v two lt))
              λ r (valid, same).
                (valid, Rearranged-trans q (risen q i) r (risen-Rearranged q i v two) same))
      ])
