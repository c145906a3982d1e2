-- ===== src/Admissions.antt =====
-- runtime/src/admissions_control.c and admissions_info.c, with ADMISSIONS_CONTROL defined: the
-- estimate of the capacity that a request takes, the decision to admit it, and the estimate's update
-- from the window of execution times.
pub mod Estimate
pub mod Decide
pub mod Account
mod Tests
use sledge_serverless_framew.Base.{
  ℕ, ◌+◌, ◌-◌, ◌*◌, ◌/◌, ◌%◌, ◌^◌, Bool, true, false, ◌||◌, not, Run, ok, fault, deadlock, ◌>>=◌,
  ◌>>◌, assert, panic_if, ltb, leb, ◌==◌, if◌then◌else◌,
}
use sledge_serverless_framew.PerfWindow
use sledge_serverless_framew.PerfWindow.{PerfWindow}

-- ADMISSIONS_CONTROL_GRANULARITY
abbrev pub granularity : ℕ
granularity = 1000000

abbrev pub u64 : ℕ → ℕ
u64 n = n % 2 ^ 64

abbrev pub u32 : ℕ → ℕ
u32 n = n % 2 ^ 32

-- The two globals. The capacity comes of a product of doubles, and is a parameter here.
pub record Control : Type 0 where
  pub admitted : ℕ
  pub capacity : ℕ

pub initialize : ℕ → Control
initialize capacity = record { admitted = 0; capacity = capacity }

pub add : Control → ℕ → Run Control
add c estimate = do
  assert (ltb 0 estimate)
  ok (record c { admitted = u64 (c.admitted + estimate) })

unfoldable pub subtract : Control → ℕ → Run Control
subtract c estimate = do
  panic_if (ltb c.admitted estimate)
  ok (record c { admitted = c.admitted - estimate })

pub calculate_estimate : ℕ → ℕ → Run ℕ
calculate_estimate estimated_execution relative_deadline = do
  assert (not (relative_deadline == 0))
  let estimate = u64 (estimated_execution * granularity) / relative_deadline
  panic_if (estimate == 0)
  ok estimate

-- The product is one of 32-bit numbers; the cast to 64 bits comes after it.
pub calculate_estimate_us : ℕ → ℕ → Run ℕ
calculate_estimate_us estimated_execution_us relative_deadline_us = do
  assert (not (relative_deadline_us == 0))
  ok (u32 (estimated_execution_us * granularity) / relative_deadline_us)

-- `admissions_control_decide` after the load of the admitted total: the work that is admitted.
pub settle : Control → ℕ → ℕ → Run (Control × ℕ)
settle c total_admitted estimate =
    if leb c.capacity (u64 (total_admitted + estimate))
    then ok (c, 0)
    else (do c' ← add c estimate; ok (c', estimate))

pub decide : Control → ℕ → Run (Control × ℕ)
decide c estimate = do panic_if (estimate == 0); settle c c.admitted estimate

-- `struct admissions_info`
pub record Info : Type 0 where
  pub perf_window : PerfWindow
  pub percentile : ℕ
  pub control_index : ℕ
  pub estimate : ℕ
  pub relative_deadline : ℕ

pub info_initialize : ℕ → ℕ → ℕ → Run Info
info_initialize percentile expected_execution relative_deadline = do
  assert (ltb 0 relative_deadline)
  assert (ltb 0 expected_execution)
  estimate ← calculate_estimate expected_execution relative_deadline
  panic_if (ltb percentile 50 || ltb 99 percentile)
  ok (record {
    perf_window = PerfWindow.initialize;
    percentile = percentile;
    control_index = PerfWindow.capacity * percentile / 100;
    estimate = estimate;
    relative_deadline = relative_deadline;
  })

-- `lock_lock(&perf_window->lock, &node)`, with a node that is zero
pub lock_lock : PerfWindow → Run PerfWindow
lock_lock w = if w.is_locked then fault deadlock else ok (record w { is_locked = true })

pub info_update : Info → ℕ → Run Info
info_update info execution_duration = do
  w₁ ← lock_lock info.perf_window
  w₂ ← PerfWindow.add w₁ execution_duration
  estimated_execution ← PerfWindow.get_percentile w₂ info.percentile info.control_index
  estimate ← calculate_estimate estimated_execution info.relative_deadline
  ok (record info { perf_window = record w₂ { is_locked = false }; estimate = estimate })
