-- ===== src/PriorityQueue/Down.antt =====
-- priority_queue_percolate_down moves an element of the heap towards the leaves
-- (runtime/include/priority_queue.h).
use sledge_serverless_framew.Base.{
  ℕ, zero, suc, ◌+◌, ◌*◌, ◌/◌, ◌≤◌, ◌<◌, ◌≡◌, ◌≢◌, refl, Bool, true, false, ◌&&◌, ◌||◌, ok, arith,
  ltb, leb, ◌==◌, if◌then◌else◌, swapped, inl, inr, Bool-cases, Returns, Returns-map, ◌⊎◌,
}
use native.Mathlib.Decide.{ℕ_discrete}
use sledge_serverless_framew.PriorityQueue
use sledge_serverless_framew.PriorityQueue.{PriorityQueue, ulong_max}
use sledge_serverless_framew.PriorityQueue.Heap.{
  IsLive, IsHeld, Rearranged, Rearranged-refl, Rearranged-trans, key, IsHeap, load-ok,
  priority_at-ok, swap-ok, swap-Rearranged, swap-IsLive,
}

module _ (get_priority : ℕ → ℕ) where
  -- The heap is in order but for the edges under cell `i`.
  pub record DownInv (q : PriorityQueue) (i : ℕ) : Type 0 where
    pub edges :
        (c : ℕ) → 2 ≤ c → c ≤ q.size → c / 2 ≢ i → key get_priority q (c / 2) ≤ key get_priority q c
    pub bridged :
        (c : ℕ)
        → 2 ≤ c
        → c ≤ q.size
        → c / 2 ≡ i
        → 2 ≤ i
        → key get_priority q (i / 2) ≤ key get_priority q c

  -- The child with the lower priority value, the right one if they are equal.
  abbrev pub smallest : PriorityQueue → ℕ → ℕ
  smallest q i =
      if ltb q.size (2 * i + 1)
      then 2 * i
      else if ltb (key get_priority q (2 * i)) (key get_priority q (2 * i + 1))
      then 2 * i
      else 2 * i + 1

  find_smallest_child-ok :
      (q : PriorityQueue) (i : ℕ)
      → IsLive q
      → IsHeld q
      → 0 < i
      → 2 * i ≤ q.size
      → PriorityQueue.find_smallest_child get_priority q i ≡ ok (smallest q i)
  unfolding PriorityQueue.find_smallest_child
  find_smallest_child-ok q i l held p h =
      let inside : (leb 1 i && leb i q.size) ≡ true = ground arith in
      let present : (q.items (2 * i) == 0) ≡ false = ground (arith, l.nonnull (2 * i)) in
      rw (inside, held, load-ok get_priority q (2 * i) (omega (arith, l.bounded)), present)
        (elim (Bool-cases (ltb q.size (2 * i + 1))) [
          | inl e ↦ rw e
          | inr e ↦ rw (
            e,
            priority_at-ok get_priority q (2 * i) l (omega arith) h,
            priority_at-ok get_priority q (2 * i + 1) l (omega arith) (ground arith),
          )
        ])

  smallest-child :
      (q : PriorityQueue) (i : ℕ)
      → 2 * i ≤ q.size
      → (smallest q i / 2 ≡ i) × (smallest q i ≤ q.size)
  smallest-child q i h = (ground arith, ground arith)

  smallest-le :
      (q : PriorityQueue) (i c : ℕ)
      → 2 * i ≤ q.size
      → c / 2 ≡ i
      → c ≤ q.size
      → key get_priority q (smallest q i) ≤ key get_priority q c
  smallest-le q i c h e s = elim both [ inl l ↦ rw l (ground arith) | inr r ↦ rw r (ground arith) ]
    where
      both : (c ≡ 2 * i) ⊎ (c ≡ 2 * i + 1)
      both = ground arith

  abbrev pub sunk : PriorityQueue → ℕ → PriorityQueue
  sunk q i = record q { items = swapped q.items i (smallest q i) }

  -- The test by which the loop ends.
  abbrev pub rests : PriorityQueue → ℕ → Bool
  rests q i = ltb q.size (2 * i) || leb (key get_priority q i) (key get_priority q (smallest q i))

  pub down_round :
      (fuel : ℕ) (q : PriorityQueue) (i : ℕ)
      → IsLive q
      → IsHeld q
      → 0 < i
      → PriorityQueue.percolate_down_loop get_priority (suc fuel) q i ≡ (
          if rests q i
          then ok q
          else PriorityQueue.percolate_down_loop get_priority fuel (sunk q i) (smallest q i))
  unfolding PriorityQueue.percolate_down_loop
  down_round fuel q i l held p = elim (Bool-cases (ltb q.size (2 * i))) [
    | inl e ↦ let out : (leb 2 (2 * i) && leb (2 * i) q.size) ≡ false = ground arith in rw (e, out)
    | inr e ↦
        let inside : (leb 2 (2 * i) && leb (2 * i) q.size) ≡ true = ground arith in
        let h : 2 * i ≤ q.size = ground arith in
        let (half, below) = smallest-child q i h in
        rw (
          e,
          inside,
          find_smallest_child-ok q i l held p h,
          priority_at-ok get_priority q i l p (omega arith),
          priority_at-ok get_priority q (smallest q i) l (omega (arith, half)) below,
          swap-ok get_priority q i (smallest q i) (omega (arith, l.bounded))
              (omega (arith, below, l.bounded)),
        )
  ]

  sunk-DownInv :
      (q : PriorityQueue) (i : ℕ)
      → DownInv q i
      → 0 < i
      → 2 * i ≤ q.size
      → key get_priority q (smallest q i) < key get_priority q i
      → DownInv (sunk q i) (smallest q i)
  sunk-DownInv q i v p h lt = record {
    edges = λ c two s ne. elim (ℕ_discrete (c / 2) i) [
      | yes e ↦ ground (arith, smallest-le q i c h e s, smallest-child q i h)
      | no ne' ↦ ground (
        arith,
        v.edges c two s ne',
        v.bridged c two s,
        smallest-child q i h,
        v.bridged (smallest q i),
      )
    ];
    bridged = λ c two s e r. ground (arith, v.edges c two s, smallest-child q i h);
  }

  -- What a run of the loop from cell `i` leaves: the same elements, with the cells before `i` as they
  -- were, and a heap if only the edges under `i` were out of order.
  pub record Sunk (q : PriorityQueue) (i : ℕ) (r : PriorityQueue) : Type 0 where
    pub live : IsLive r
    pub same : Rearranged q r
    pub highest_priority : r.highest_priority ≡ q.highest_priority
    pub kept : (c : ℕ) → c < i → r.items c ≡ q.items c
    pub ordered : DownInv q i → IsHeap get_priority r

  rests-Sunk : (q : PriorityQueue) (i : ℕ) → IsLive q → 0 < i → rests q i ≡ true → Sunk q i q
  rests-Sunk q i l p t = record {
    live = l;
    same = Rearranged-refl q;
    highest_priority = refl;
    kept = λ c h. refl;
    ordered = λ v c two s. elim (ℕ_discrete (c / 2) i) [
      | yes e ↦ rw e (ground (arith, smallest-le q i c (omega arith) e s))
      | no ne ↦ v.edges c two s ne
    ];
  }

  sunk-Sunk :
      (q r : PriorityQueue) (i : ℕ)
      → 0 < i
      → 2 * i ≤ q.size
      → key get_priority q (smallest q i) < key get_priority q i
      → Sunk (sunk q i) (smallest q i) r
      → Sunk q i r
  sunk-Sunk q r i p h lt s =
      let (half, below) = smallest-child q i h in
      record {
        live = s.live;
        same =
            Rearranged-trans q (sunk q i) r
              (swap-Rearranged get_priority q i (smallest q i) p (omega arith) (omega (arith, half))
                below)
              s.same;
        highest_priority = s.highest_priority;
        kept = λ c lt. ground (arith, s.kept c (omega (arith, half)), half);
        ordered = λ v. s.ordered (sunk-DownInv q i v p h lt);
      }

  pub percolate_down_loop-Sunk :
      (fuel : ℕ) (q : PriorityQueue) (i : ℕ)
      → 0 < fuel
      → q.size + 2 ≤ fuel + i
      → IsLive q
      → IsHeld q
      → 0 < i
      → Returns (Sunk q i) (PriorityQueue.percolate_down_loop get_priority fuel q i)
  percolate_down_loop-Sunk zero q i f n l held p = absurd (omega arith)
  percolate_down_loop-Sunk (suc fuel) q i f n l held p =
      rw (down_round fuel q i l held p) (elim (Bool-cases (rests q i)) [
        | inl t ↦ rw t (q, refl, rests-Sunk q i l p t)
        | inr t ↦
            let h : 2 * i ≤ q.size = ground arith in
            let lt : key get_priority q (smallest q i) < key get_priority q i = ground arith in
            let (half, below) = smallest-child q i h in
            rw t (
              Returns-map _
                (percolate_down_loop-Sunk fuel (sunk q i) (smallest q i)
                  (omega (arith, half, below)) (omega (arith, half, below))
                  (swap-IsLive get_priority q i (smallest q i) p (omega arith) (omega (arith, half))
                    below l)
                  held (omega (arith, half)))
                λ r s. sunk-Sunk q r i p h lt s)
      ])
