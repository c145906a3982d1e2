-- ===== src/PerfWindow/Tests.antt =====
-- Runs of the perf window (runtime/include/perf_window.h), and its theorems at concrete ones.
use sledge_serverless_framew.Base.{
  ℕ, ◌+◌, ◌*◌, ◌/◌, ◌≤◌, ◌<◌, ◌≡◌, refl, true, ok, Run, arith, Returns, ◌>>=◌, ◌⊎◌, inl, inr,
}
use sledge_serverless_framew.PerfWindow
use sledge_serverless_framew.PerfWindow.{PerfWindow, time_at}
use sledge_serverless_framew.PerfWindow.Shift.{IsSorted}
use sledge_serverless_framew.PerfWindow.Add.{
  IsWellFormed, Added, add_correct, get_percentile_correct,
}

-- The times 100 … 355, the oldest in cell 44 of the ring.
abbrev sample : PerfWindow
sample = record {
  by_duration = λ i. record { execution_time = 100 + i; by_termination_idx = i };
  by_termination = λ k. k;
  count = 300;
  is_locked = true;
}

sample-IsWellFormed : IsWellFormed sample
unfolding IsSorted
sample-IsWellFormed = inr (
  omega arith,
  omega arith,
  record { down = λ k h. (h, refl); back = λ i h. (h, refl) },
  λ a b lt h. omega arith,
)

add_correct_example : Returns (Added sample 1000) (PerfWindow.add sample 1000)
add_correct_example = add_correct sample 1000 sample-IsWellFormed refl (omega arith)

get_percentile_correct_example :
    Returns
      (λ v.
        ((sample.count ≡ 0) × (v ≡ 0))
        ⊎ ((v ≡ time_at sample (256 * 99 / 100))
            × ((j : ℕ)
                → j < 256
                → ((j ≤ 256 * 99 / 100) → time_at sample j ≤ v)
                  × ((256 * 99 / 100 ≤ j) → v ≤ time_at sample j))))
      (PerfWindow.get_percentile sample 99 0)
get_percentile_correct_example =
    get_percentile_correct sample 99 0 sample-IsWellFormed (omega arith) (omega arith) (inl refl)

-- The time 144 in cell 44 of the ring gives way to 1000, which moves to the end.
abbrev summary : PerfWindow → Run (ℕ × ℕ × ℕ)
summary r = ok (time_at r 255, time_at r 44, r.count)

after_add : (PerfWindow.add sample 1000 >>= summary) ≡ ok (1000, 145, 301)
unfolding PerfWindow.add PerfWindow.replace_oldest PerfWindow.shift_right PerfWindow.swap
    PerfWindow.is_ordered
after_add = refl
