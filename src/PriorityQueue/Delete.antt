-- ===== src/PriorityQueue/Delete.antt =====
-- priority_queue_delete finds an element by its address and removes it
-- (runtime/include/priority_queue.h).
use sledge_serverless_framew.Base.{
  ℕ, zero, suc, ◌+◌, ◌*◌, ◌/◌, ◌≤◌, ◌<◌, ◌≡◌, ◌≢◌, refl, true, false, ok, arith, ◌==◌, Returns, ◌⊎◌,
  inl, inr, ◌>>=◌, Bool-cases,
}
use native.Mathlib.Decide.{ℕ_discrete}
use sledge_serverless_framew.PriorityQueue
use sledge_serverless_framew.PriorityQueue.{PriorityQueue, Rc, done, not_found, ulong_max}
use sledge_serverless_framew.PriorityQueue.Heap.{IsLive, IsHeld, key, IsHeap, IsValid, load-ok}
use sledge_serverless_framew.PriorityQueue.Down.{rests}
use sledge_serverless_framew.PriorityQueue.Settle.{percolate_down-rests}
use sledge_serverless_framew.PriorityQueue.Remove.{
  Without, Fits, removed, removed-IsLive, remove_at-ok, remove_at-Without,
}

-- Cell `j` is the first live one that holds `value`.
pub record IsFirst (q : PriorityQueue) (value j : ℕ) : Type 0 where
  pub positive : 0 < j
  pub inside : j ≤ q.size
  pub holds : q.items j ≡ value
  pub first : (c : ℕ) → 0 < c → c < j → q.items c ≢ value

-- The first of the live cells 1 … n that holds the value, if there is one.
pub search-IsFirst :
    (q : PriorityQueue) (value n : ℕ)
    → n ≤ q.size
    → ((j : ℕ) × (j ≤ n) × IsFirst q value j) ⊎ ((c : ℕ) → 0 < c → c ≤ n → q.items c ≢ value)
search-IsFirst q value zero h = inr λ c p s. absurd (omega arith)
search-IsFirst q value (suc n) h = elim (search-IsFirst q value n (omega arith)) [
  | inl (j, below, f) ↦ inl (j, omega arith, f)
  | inr fresh ↦ elim (ℕ_discrete (q.items (suc n)) value) [
    | yes e ↦ inl (
      suc n,
      omega arith,
      record {
        positive = omega arith;
        inside = h;
        holds = e;
        first = λ c p s. fresh c p (omega arith);
      },
    )
    | no ne ↦ inr λ c p s. ground (arith, fresh c)
  ]
]

module _ (get_priority : ℕ → ℕ) where
  delete_loop-found :
      (rounds : ℕ) (q : PriorityQueue) (i value j : ℕ)
      → IsLive q
      → IsFirst q value j
      → 0 < i
      → i ≤ j
      → i + rounds ≡ q.size + 1
      → PriorityQueue.delete_loop get_priority false rounds q i value
        ≡ (PriorityQueue.remove_at get_priority false q j >>= λ r. ok (r, done))
  unfolding PriorityQueue.delete_loop
  delete_loop-found zero q i value j l f p h e = absurd (omega (arith, f.inside))
  delete_loop-found (suc rounds) q i value j l f p h e =
      rw (load-ok get_priority q i (omega (arith, l.bounded)))
        (elim (Bool-cases (q.items i == value)) [
          | inl eq ↦ let same : i ≡ j = ground (arith, f.first i) in rw (eq, same)
          | inr ne ↦ rw ne (
              delete_loop-found rounds q (i + 1) value j l f (omega arith) (ground (arith, f.holds))
                (omega arith))
        ])

  delete_loop-absent :
      (rounds : ℕ) (q : PriorityQueue) (i value : ℕ)
      → IsLive q
      → ((c : ℕ) → 0 < c → c ≤ q.size → q.items c ≢ value)
      → 0 < i
      → i + rounds ≡ q.size + 1
      → PriorityQueue.delete_loop get_priority false rounds q i value ≡ ok (q, not_found)
  unfolding PriorityQueue.delete_loop
  delete_loop-absent zero q i value l f p e = refl
  delete_loop-absent (suc rounds) q i value l f p e =
      let ne : (q.items i == value) ≡ false = ground (arith, f i) in
      rw (load-ok get_priority q i (omega (arith, l.bounded)), ne)
        (delete_loop-absent rounds q (i + 1) value l f (omega arith) (omega arith))

  delete_nolock-found :
      (q : PriorityQueue) (value j : ℕ)
      → IsLive q
      → IsHeld q
      → value ≢ 0
      → IsFirst q value j
      → PriorityQueue.delete_nolock get_priority false q value
        ≡ (PriorityQueue.remove_at get_priority false q j >>= λ r. ok (r, done))
  unfolding PriorityQueue.delete_nolock
  delete_nolock-found q value j l held n f =
      let nonzero : (value == 0) ≡ false = ground arith in
      rw (nonzero, held)
        (delete_loop-found q.size q 1 value j l f (omega arith) f.positive (omega arith))

  pub delete_nolock-absent :
      (q : PriorityQueue) (value : ℕ)
      → IsLive q
      → IsHeld q
      → value ≢ 0
      → ((c : ℕ) → 0 < c → c ≤ q.size → q.items c ≢ value)
      → PriorityQueue.delete_nolock get_priority false q value ≡ ok (q, not_found)
  unfolding PriorityQueue.delete_nolock
  delete_nolock-absent q value l held n f =
      let nonzero : (value == 0) ≡ false = ground arith in
      rw (nonzero, held) (delete_loop-absent q.size q 1 value l f (omega arith) (omega arith))

  pub delete_nolock-Without :
      (q : PriorityQueue) (value j : ℕ)
      → IsValid get_priority q
      → IsHeld q
      → value ≢ 0
      → IsFirst q value j
      → Returns
          (λ r.
            (r.1 ≡ done) × Without value q r.0 × (Fits get_priority q j → IsValid get_priority r.0))
          (PriorityQueue.delete_nolock get_priority false q value)
  delete_nolock-Without q value j v held n f =
      let (r, e, (w, m, valid)) = remove_at-Without get_priority q j v held f.positive f.inside in
      rw (delete_nolock-found q value j v.live held n f, e)
        ((r, done), refl, (refl, rw f.holds at w, valid))

  removed-rests :
      (q : PriorityQueue) (j : ℕ)
      → IsHeap get_priority q
      → 2 ≤ j
      → j < q.size
      → key get_priority q q.size < key get_priority q (j / 2)
      → rests get_priority (removed q j) j ≡ true
  removed-rests q j heap two h lt = ground (arith, heap j, heap (2 * j), heap (2 * j + 1))

  -- priority_queue_delete_nolock on a valid queue, of an element in a cell between the first and the
  -- last, if the last element of the array precedes the parent of that cell: it returns 0, and the
  -- heap order is broken, since the last element stands under a parent that it precedes.
  pub delete_nolock-breaks :
      (q : PriorityQueue) (value j : ℕ)
      → IsValid get_priority q
      → IsHeld q
      → value ≢ 0
      → IsFirst q value j
      → 2 ≤ j
      → j < q.size
      → key get_priority q q.size < key get_priority q (j / 2)
      → Returns
          (λ r.
            (r.1 ≡ done)
            × (key get_priority r.0 j < key get_priority r.0 (j / 2))
            × ¬ IsHeap get_priority r.0)
          (PriorityQueue.delete_nolock get_priority false q value)
  delete_nolock-breaks q value j v held n f two h lt =
      let worse : key get_priority (removed q j) j < key get_priority (removed q j) (j / 2) =
        ground arith in
      rw
        (
          delete_nolock-found q value j v.live held n f,
          remove_at-ok get_priority q j v.live f.positive f.inside,
          percolate_down-rests get_priority (removed q j) j
              (removed-IsLive q j v.live f.positive f.inside) held two
              (removed-rests q j v.heap two h lt),
        )
        (
          (removed q j, done),
          refl,
          (refl, worse, λ heap. absurd (omega (arith, heap j two (omega arith), worse))),
        )
