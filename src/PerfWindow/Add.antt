-- ===== src/PerfWindow/Add.antt =====
-- perf_window_add and perf_window_get_percentile (runtime/include/perf_window.h).
use sledge_serverless_framew.Base.{
  ℕ, zero, suc, ◌+◌, ◌*◌, ◌/◌, ◌%◌, ◌^◌, ◌≤◌, ◌<◌, ◌≡◌, refl, true, ◌&&◌, ◌||◌, ◌⊎◌, inl, inr,
  arith, ltb, leb, ◌==◌, if◌then◌else◌, Bool-cases, Returns, Returns-bind,
}
use sledge_serverless_framew.PerfWindow
use sledge_serverless_framew.PerfWindow.{
  PerfWindow, time_at, link_at, capacity, overwritten, percentile_index,
}
use sledge_serverless_framew.PerfWindow.Swap.{Linked, recorded}
use sledge_serverless_framew.PerfWindow.Shift.{
  IsSorted, IsSortedRightOf, IsSortedLeftOf, Placed, shift_right-Placed, shift_left-Placed,
}

-- Either nothing was added yet, or every cell holds an execution time.
abbrev pub IsWellFormed : PerfWindow → Type 0
IsWellFormed w = (w.count ≡ 0) ⊎ ((256 ≤ w.count) × (w.count < 2 ^ 64) × Linked w × IsSorted w)

-- The window after `newest`: it takes the place of the oldest time, or of all if there was none.
pub record Added (w : PerfWindow) (newest : ℕ) (r : PerfWindow) : Type 0 where
  pub well_formed : IsWellFormed r
  pub is_locked : r.is_locked ≡ true
  pub count : r.count ≡ (if w.count == 0 then 256 else (w.count + 1) % 2 ^ 64)
  pub ring :
      (k : ℕ)
      → k < 256
      → recorded r k ≡ (if (w.count == 0) || (k == w.count % 256) then newest else recorded w k)

IsSorted-is_ordered :
    (w : PerfWindow) (n : ℕ) → n < 256 → IsSorted w → PerfWindow.is_ordered w n ≡ true
unfolding IsSorted PerfWindow.is_ordered
IsSorted-is_ordered w zero h s = refl
IsSorted-is_ordered w (suc n) h s =
    ground (arith, IsSorted-is_ordered w n (omega arith) s, s n (suc n))

overwritten-Linked : (w : PerfWindow) (i newest : ℕ) → Linked w → Linked (overwritten w i newest)
overwritten-Linked w i newest l = record {
  down = λ k h. ground (arith, l.down k h);
  back = λ a h. ground (arith, l.back a h);
}

overwritten-recorded :
    (w : PerfWindow) (oldest newest k : ℕ)
    → Linked w
    → oldest < 256
    → k < 256
    → recorded (overwritten w (w.by_termination oldest) newest) k
      ≡ (if k == oldest then newest else recorded w k)
overwritten-recorded w oldest newest k l p h = ground (arith, l.down k h, l.down oldest p)

overwritten-IsSortedRightOf :
    (w : PerfWindow) (i newest : ℕ)
    → IsSorted w
    → time_at w i < newest
    → IsSortedRightOf (overwritten w i newest) i
unfolding IsSorted IsSortedRightOf
overwritten-IsSortedRightOf w i newest s lt a b = ground (arith, s a b)

overwritten-IsSortedLeftOf :
    (w : PerfWindow) (i newest : ℕ)
    → IsSorted w
    → newest ≤ time_at w i
    → IsSortedLeftOf (overwritten w i newest) i
unfolding IsSorted IsSortedLeftOf
overwritten-IsSortedLeftOf w i newest s lt a b = ground (arith, s a b)

-- The loop that perf_window_add runs sorts the window again.
module _ (w : PerfWindow) (newest : ℕ) (l : Linked w) (s : IsSorted w)
    (held : w.is_locked ≡ true) where
  shifted-Placed :
      (i : ℕ)
      → i < 256
      → Returns (Placed (overwritten w i newest)) (
          if ltb (time_at w i) newest
          then PerfWindow.shift_right 256 (overwritten w i newest) i
          else PerfWindow.shift_left 256 (overwritten w i newest) i)
  shifted-Placed i h = elim (Bool-cases (ltb (time_at w i) newest)) [
    | inl e ↦ rw e (
        shift_right-Placed 256 (overwritten w i newest) i (omega arith) (omega arith) h
          (overwritten-Linked w i newest l) held
          (overwritten-IsSortedRightOf w i newest s (ground arith)))
    | inr e ↦ rw e (
        shift_left-Placed 256 (overwritten w i newest) i h h (overwritten-Linked w i newest l) held
          (overwritten-IsSortedLeftOf w i newest s (ground arith)))
  ]

  -- What the rest of the function makes of the sorted window.
  finished-Added :
      (r : PerfWindow)
      → 256 ≤ w.count
      → w.count < 2 ^ 64
      → Placed (overwritten w (w.by_termination (w.count % 256)) newest) r
      → Added w newest (record r { count = (r.count + 1) % 2 ^ 64 })
  unfolding IsSorted
  finished-Added r full bounded (p, sorted) = record {
    well_formed = elim (Bool-cases ((w.count + 1) % 2 ^ 64 == 0)) [
      | inl e ↦ inl (ground (arith, p.count))
      | inr e ↦ inr (
        ground (arith, p.count),
        ground (arith, p.count),
        record { down = p.linked.down; back = p.linked.back },
        sorted,
      )
    ];
    is_locked = p.is_locked;
    count = ground (arith, p.count);
    ring = λ k h.
        ground
          (arith, p.same k h, overwritten-recorded w (w.count % 256) newest k l (omega arith) h);
  }

  replace_oldest-Added :
      256 ≤ w.count
      → w.count < 2 ^ 64
      → Returns (Added w newest) (PerfWindow.replace_oldest w newest)
  unfolding PerfWindow.replace_oldest
  replace_oldest-Added full bounded =
      let (inside, _) = l.down (w.count % 256) (omega arith) in
      let within : ltb (w.by_termination (w.count % 256)) 256 ≡ true = ground arith in
      rw within (
        Returns-bind _ _ (shifted-Placed (w.by_termination (w.count % 256)) inside) λ r (p, sorted).
          (
            record r { count = (r.count + 1) % 2 ^ 64 },
            ground (
              arith,
              p.count,
              p.linked.down (w.count % 256) (omega arith),
              p.same (w.count % 256) (omega arith),
              overwritten-recorded w (w.count % 256) newest (w.count % 256) l (omega arith)
                  (omega arith),
              IsSorted-is_ordered r 255 (omega arith) sorted,
            ),
            finished-Added r full bounded (p, sorted),
          ))

fill_loop-cells :
    (rounds : ℕ) (w : PerfWindow) (newest i k : ℕ)
    → let r = PerfWindow.fill_loop rounds w newest i in
      (r.is_locked ≡ w.is_locked)
      × (r.by_termination k ≡ (if leb i k && ltb k (i + rounds) then k else w.by_termination k))
      × (link_at r k ≡ (if leb i k && ltb k (i + rounds) then k else link_at w k))
      × (time_at r k ≡ (if leb i k && ltb k (i + rounds) then newest else time_at w k))
unfolding PerfWindow.fill_loop
fill_loop-cells zero w newest i k = ground arith
fill_loop-cells (suc rounds) w newest i k =
    ground (arith, fill_loop-cells rounds (PerfWindow.fill_loop 1 w newest i) newest (i + 1) k)

fill-Added :
    (w : PerfWindow) (newest : ℕ)
    → w.is_locked ≡ true
    → w.count ≡ 0
    → Added w newest (PerfWindow.fill w newest)
unfolding PerfWindow.fill IsSorted
fill-Added w newest held e =
    let cells : (k : ℕ) → _ = fill_loop-cells 256 w newest 0 in
    record {
      well_formed = inr (
        omega arith,
        omega arith,
        record { down = λ k h. ground (arith, cells k); back = λ i h. ground (arith, cells i) },
        λ a b lt h. ground (arith, cells a, cells b),
      );
      is_locked = ground (arith, cells 0);
      count = ground arith;
      ring = λ k h. ground (arith, cells k);
    }

-- perf_window_add on a well-formed window whose lock is held, with a positive execution time,
-- returns: no assertion fails, `newest` takes the place of the oldest time (or of all, in an empty
-- window), the other times stay, the window stays well-formed and so sorted, and count goes up by
-- one (to 256 in an empty window), in 64 bits.
pub add_correct :
    (w : PerfWindow) (newest : ℕ)
    → IsWellFormed w
    → w.is_locked ≡ true
    → 0 < newest
    → Returns (Added w newest) (PerfWindow.add w newest)
unfolding PerfWindow.add
add_correct w newest (inl e) held p =
    (PerfWindow.fill w newest, ground arith, fill-Added w newest held e)
add_correct w newest (inr (full, bounded, l, s)) held p =
    let (r, e, a) = replace_oldest-Added w newest l s held full bounded in (r, ground arith, a)

-- perf_window_get_percentile on a well-formed window, for a percentile from 50 to 99 and with the
-- precomputed index 0 or `256 * percentile / 100`, returns: 0 if nothing was added, and else the
-- time at the rank of the percentile, so that no time before it is larger and none after it is
-- smaller.
pub get_percentile_correct :
    (w : PerfWindow) (percentile precomputed_index : ℕ)
    → IsWellFormed w
    → 50 ≤ percentile
    → percentile ≤ 99
    → (precomputed_index ≡ 0) ⊎ (precomputed_index ≡ 256 * percentile / 100)
    → Returns
        (λ v.
          ((w.count ≡ 0) × (v ≡ 0))
          ⊎ ((v ≡ time_at w (256 * percentile / 100))
              × ((j : ℕ)
                  → j < 256
                  → ((j ≤ 256 * percentile / 100) → time_at w j ≤ v)
                    × ((256 * percentile / 100 ≤ j) → v ≤ time_at w j))))
        (PerfWindow.get_percentile w percentile precomputed_index)
unfolding PerfWindow.get_percentile PerfWindow.percentile_index IsSorted
get_percentile_correct w percentile precomputed_index (inl e) lo hi c =
    (0, ground arith, inl (e, refl))
get_percentile_correct w percentile precomputed_index (inr (full, bounded, l, s)) lo hi c = (
  time_at w (256 * percentile / 100),
  ground arith,
  inr (
    refl,
    λ j h. (
      λ le. ground (arith, s j (256 * percentile / 100)),
      λ ge. ground (arith, s (256 * percentile / 100) j),
    ),
  ),
)
