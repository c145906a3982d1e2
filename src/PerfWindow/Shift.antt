-- ===== src/PerfWindow/Shift.antt =====
-- The loops of perf_window_add that move the overwritten node to its place
-- (runtime/include/perf_window.h).
use sledge_serverless_framew.Base.{
  ℕ, zero, suc, ◌+◌, ◌-◌, ◌≤◌, ◌<◌, ◌≡◌, ◌≢◌, refl, true, false, ◌&&◌, arith, ltb, leb, inl, inr,
  Bool-cases, Returns, Returns-map,
}
use sledge_serverless_framew.PerfWindow
use sledge_serverless_framew.PerfWindow.{PerfWindow, time_at, link_at, capacity, exchanged}
use sledge_serverless_framew.PerfWindow.Swap.{
  Linked, Reordered, Reordered-trans, swap-exchanged, exchanged-Reordered,
}

unfoldable pub IsSorted : PerfWindow → Type 0
IsSorted w = (a b : ℕ) → a < b → b < 256 → time_at w a ≤ time_at w b

-- Sorted, but that node `i` may be too far to the left, or to the right.
unfoldable pub IsSortedRightOf : PerfWindow → ℕ → Type 0
IsSortedRightOf w i = (a b : ℕ) → a < b → b < 256 → a ≢ i → time_at w a ≤ time_at w b

unfoldable pub IsSortedLeftOf : PerfWindow → ℕ → Type 0
IsSortedLeftOf w i = (a b : ℕ) → a < b → b < 256 → b ≢ i → time_at w a ≤ time_at w b

abbrev pub Placed : PerfWindow → PerfWindow → Type 0
Placed w r = Reordered w r × IsSorted r

Reordered-refl : (w : PerfWindow) → Linked w → w.is_locked ≡ true → Reordered w w
Reordered-refl w l held = record { linked = l; is_locked = held; count = refl; same = λ k h. refl }

right_round-IsSortedRightOf :
    (w : PerfWindow) (i : ℕ)
    → i + 1 < 256
    → time_at w (i + 1) < time_at w i
    → IsSortedRightOf w i
    → IsSortedRightOf (exchanged w i (i + 1)) (i + 1)
unfolding IsSortedRightOf
right_round-IsSortedRightOf w i h lt s a b = ground (arith, s a b, s a (i + 1), s a i, s (i + 1) b)

right_end-IsSorted :
    (w : PerfWindow) (i : ℕ)
    → (ltb (i + 1) 256 && ltb (time_at w (i + 1)) (time_at w i)) ≡ false
    → IsSortedRightOf w i
    → IsSorted w
unfolding IsSorted IsSortedRightOf
right_end-IsSorted w i e s a b = ground (arith, s a b, s (i + 1) b)

left_round-IsSortedLeftOf :
    (w : PerfWindow) (i : ℕ)
    → 1 ≤ i
    → i < 256
    → time_at w i < time_at w (i - 1)
    → IsSortedLeftOf w i
    → IsSortedLeftOf (exchanged w i (i - 1)) (i - 1)
unfolding IsSortedLeftOf
left_round-IsSortedLeftOf w i one h lt s a b =
    ground (arith, s a b, s a (i - 1), s i b, s (i - 1) b)

left_end-IsSorted :
    (w : PerfWindow) (i : ℕ)
    → (leb 1 i && ltb (time_at w i) (time_at w (i - 1))) ≡ false
    → IsSortedLeftOf w i
    → IsSorted w
unfolding IsSorted IsSortedLeftOf
left_end-IsSorted w i e s a b = ground (arith, s a b, s a (i - 1))

pub shift_right-Placed :
    (fuel : ℕ) (w : PerfWindow) (i : ℕ)
    → 0 < fuel
    → 256 ≤ fuel + i
    → i < 256
    → Linked w
    → w.is_locked ≡ true
    → IsSortedRightOf w i
    → Returns (Placed w) (PerfWindow.shift_right fuel w i)
unfolding PerfWindow.shift_right
shift_right-Placed zero w i f n h l held s = absurd (omega arith)
shift_right-Placed (suc fuel) w i f n h l held s =
    elim (Bool-cases (ltb (i + 1) capacity && ltb (time_at w (i + 1)) (time_at w i))) [
      | inr e ↦ rw e (w, refl, (Reordered-refl w l held, right_end-IsSorted w i e s))
      | inl e ↦
          let below : i + 1 < 256 = ground arith in
          let lt : time_at w (i + 1) < time_at w i = ground arith in
          let x = exchanged-Reordered w i (i + 1) l held h below (λ z. omega arith) in
          rw (e, swap-exchanged w i (i + 1) l held h below (λ z. omega arith))
            (Returns-map _
              (shift_right-Placed fuel (exchanged w i (i + 1)) (i + 1) (omega arith) (omega arith)
                below x.linked x.is_locked (right_round-IsSortedRightOf w i below lt s))
              λ r (same, sorted). (Reordered-trans w _ r x same, sorted))
    ]

pub shift_left-Placed :
    (fuel : ℕ) (w : PerfWindow) (i : ℕ)
    → i < fuel
    → i < 256
    → Linked w
    → w.is_locked ≡ true
    → IsSortedLeftOf w i
    → Returns (Placed w) (PerfWindow.shift_left fuel w i)
unfolding PerfWindow.shift_left
shift_left-Placed zero w i f h l held s = absurd (omega arith)
shift_left-Placed (suc fuel) w i f h l held s =
    elim (Bool-cases (leb 1 i && ltb (time_at w i) (time_at w (i - 1)))) [
      | inr e ↦ rw e (w, refl, (Reordered-refl w l held, left_end-IsSorted w i e s))
      | inl e ↦
          let one : 1 ≤ i = ground arith in
          let lt : time_at w i < time_at w (i - 1) = ground arith in
          let x = exchanged-Reordered w i (i - 1) l held h (omega arith) (λ z. omega arith) in
          rw (e, swap-exchanged w i (i - 1) l held h (omega arith) (λ z. omega arith))
            (Returns-map _
              (shift_left-Placed fuel (exchanged w i (i - 1)) (i - 1) (omega arith) (omega arith)
                x.linked x.is_locked (left_round-IsSortedLeftOf w i one h lt s))
              λ r (same, sorted). (Reordered-trans w _ r x same, sorted))
    ]
