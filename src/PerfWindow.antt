-- ===== src/PerfWindow.antt =====
-- runtime/include/perf_window_t.h and perf_window.h: the window over the last execution times of a
-- route, once by age (a ring) and once by duration (sorted). An index that the code does not check
-- against the capacity is checked by `bounds`.
pub mod Swap
pub mod Shift
pub mod Add
mod Tests
use sledge_serverless_framew.Base.{
  ℕ, zero, suc, ◌+◌, ◌-◌, ◌*◌, ◌/◌, ◌%◌, ◌^◌, Bool, true, false, ◌&&◌, ◌||◌, not, Run, ok, fault,
  out_of_bounds, out_of_fuel, ◌>>=◌, ◌>>◌, assert, panic_if, ltb, leb, ◌==◌, if◌then◌else◌, update,
  swapped,
}

abbrev pub capacity : ℕ
capacity = 256

pub record ExecutionNode : Type 0 where
  pub execution_time : ℕ
  pub by_termination_idx : ℕ

pub record PerfWindow : Type 0 where
  pub by_duration : ℕ → ExecutionNode
  pub by_termination : ℕ → ℕ
  pub count : ℕ
  pub is_locked : Bool

-- `by_duration[i].execution_time`
abbrev pub time_at : PerfWindow → ℕ → ℕ
time_at w i = (w.by_duration i).execution_time

abbrev pub link_at : PerfWindow → ℕ → ℕ
link_at w i = (w.by_duration i).by_termination_idx

abbrev pub bounds : ℕ → Run (Unit {0})
bounds i = if ltb i capacity then ok tt else fault out_of_bounds

unfoldable pub initialize : PerfWindow
initialize = record {
  by_duration = λ i. record { execution_time = 0; by_termination_idx = 0 };
  by_termination = λ i. 0;
  count = 0;
  is_locked = false;
}

-- The cells of `w` after the assignments of perf_window_swap.
abbrev pub exchanged : PerfWindow → ℕ → ℕ → PerfWindow
exchanged w first second = record w {
  by_termination =
      update (update w.by_termination (link_at w first) second) (link_at w second) first;
  by_duration = swapped w.by_duration second first;
}

pub swap : PerfWindow → ℕ → ℕ → Run PerfWindow
swap w first second = do
  assert w.is_locked
  assert (ltb first capacity)
  assert (ltb second capacity)
  bounds (link_at w first)
  bounds (link_at w second)
  assert (w.by_termination (link_at w first) == first)
  assert (w.by_termination (link_at w second) == second)
  let w' = exchanged w first second
  bounds (w'.by_termination (link_at w first))
  bounds (w'.by_termination (link_at w second))
  assert (time_at w' (w'.by_termination (link_at w first)) == time_at w first)
  assert (time_at w' (w'.by_termination (link_at w second)) == time_at w second)
  ok w'

-- The `for` loop of perf_window_fill, with `rounds` rounds to go.
pub fill_loop : ℕ → PerfWindow → ℕ → ℕ → PerfWindow
fill_loop zero w newest i = w
fill_loop (suc rounds) w newest i =
    fill_loop rounds
      (record w {
        by_termination = update w.by_termination i i;
        by_duration =
            update w.by_duration i (record { execution_time = newest; by_termination_idx = i });
      })
      newest (i + 1)

pub fill : PerfWindow → ℕ → PerfWindow
fill w newest = record (fill_loop capacity w newest 0) { count = capacity }

-- The two `for` loops of perf_window_add; `capacity` rounds are enough.
pub shift_right : ℕ → PerfWindow → ℕ → Run PerfWindow
shift_right zero w i = fault out_of_fuel
shift_right (suc fuel) w i =
    let round : Run PerfWindow = do w' ← swap w i (i + 1); shift_right fuel w' (i + 1)
    in if ltb (i + 1) capacity && ltb (time_at w (i + 1)) (time_at w i) then round else ok w

pub shift_left : ℕ → PerfWindow → ℕ → Run PerfWindow
shift_left zero w i = fault out_of_fuel
shift_left (suc fuel) w i =
    let round : Run PerfWindow = do w' ← swap w i (i - 1); shift_left fuel w' (i - 1)
    in if leb 1 i && ltb (time_at w i) (time_at w (i - 1)) then round else ok w

-- The debug loop at the end of perf_window_add: the cells 0 … n are in order.
pub is_ordered : PerfWindow → ℕ → Bool
is_ordered w zero = true
is_ordered w (suc i) = is_ordered w i && leb (time_at w i) (time_at w (suc i))

-- `w` with `newest` for the execution time of cell `i`
abbrev pub overwritten : PerfWindow → ℕ → ℕ → PerfWindow
overwritten w i newest = record w {
  by_duration =
      update w.by_duration i (record { execution_time = newest; by_termination_idx = link_at w i });
}

-- perf_window_add from the test for an empty window on.
pub replace_oldest : PerfWindow → ℕ → Run PerfWindow
replace_oldest w newest = do
  let idx_to_replace = w.by_termination (w.count % capacity)
  bounds idx_to_replace
  let w₁ = overwritten w idx_to_replace newest
  w₂ ←
      (if ltb (time_at w idx_to_replace) newest
        then shift_right capacity w₁ idx_to_replace
        else shift_left capacity w₁ idx_to_replace)
  bounds (w₂.by_termination (w₂.count % capacity))
  assert (time_at w₂ (w₂.by_termination (w₂.count % capacity)) == newest)
  assert (is_ordered w₂ (capacity - 1))
  ok (record w₂ { count = (w₂.count + 1) % 2 ^ 64 })

pub add : PerfWindow → ℕ → Run PerfWindow
add w newest = do
  assert (ltb 0 newest)
  panic_if (not w.is_locked)
  if w.count == 0 then ok (fill w newest) else replace_oldest w newest

pub percentile_index : PerfWindow → ℕ → ℕ → ℕ
percentile_index w percentile precomputed_index =
    let size = if ltb w.count capacity then w.count else capacity in
    if (precomputed_index == 0) || ltb w.count capacity
    then size * percentile / 100
    else precomputed_index

pub get_percentile : PerfWindow → ℕ → ℕ → Run ℕ
get_percentile w percentile precomputed_index = do
  assert (leb 50 percentile && leb percentile 99)
  if w.count == 0 then ok 0 else (do
    bounds (percentile_index w percentile precomputed_index)
    ok (time_at w (percentile_index w percentile precomputed_index)))

pub get_count : PerfWindow → ℕ
get_count w = w.count
