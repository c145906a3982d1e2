-- ===== src/Admissions/Estimate.antt =====
-- The estimates of the admissions control: runtime/src/admissions_control.c and admissions_info.c.
use native.Mathlib.Nat.{le-div_iff_mul-le, div-lt_iff_lt-mul}
use sledge_serverless_framew.Base.{
  ℕ, ◌+◌, ◌*◌, ◌/◌, ◌%◌, ◌^◌, ◌≤◌, ◌<◌, ◌≡◌, ◌≢◌, refl, Bool, true, false, ◌||◌, ◌⊎◌, inl, inr, ok,
  arith, ltb, ◌==◌, if◌then◌else◌, Returns,
}
use sledge_serverless_framew.PerfWindow
use sledge_serverless_framew.PerfWindow.{PerfWindow, time_at, link_at}
use sledge_serverless_framew.PerfWindow.Swap.{recorded}
use sledge_serverless_framew.PerfWindow.Shift.{IsSorted}
use sledge_serverless_framew.PerfWindow.Add.{
  IsWellFormed, Added, add_correct, get_percentile_correct,
}
use sledge_serverless_framew.Admissions
use sledge_serverless_framew.Admissions.{Info, granularity}

-- An execution time whose estimate is neither zero nor too large for 64 bits.
abbrev pub Fits : ℕ → ℕ → Type 0
Fits relative_deadline time =
    (relative_deadline ≤ time * granularity) × (time * granularity < 2 ^ 64)

quotient_positive : (a b : ℕ) → 0 < b → b ≤ a → 0 < a / b
quotient_positive a b p h = (le-div_iff_mul-le {x = 1} {y = a} p).1 (omega arith)

pub calculate_estimate-ok :
    (time relative_deadline : ℕ)
    → 0 < relative_deadline
    → Fits relative_deadline time
    → (Admissions.calculate_estimate time relative_deadline
        ≡ ok (time * granularity / relative_deadline))
      × (0 < time * granularity / relative_deadline)
unfolding Admissions.calculate_estimate
calculate_estimate-ok time relative_deadline p (lo, hi) =
    let q : 0 < time * granularity / relative_deadline =
      quotient_positive (time * granularity) relative_deadline p lo in
    let e : (time * granularity) % 2 ^ 64 ≡ time * granularity = omega arith in
    (rw e (ground arith), q)

-- The 32-bit product makes a request that needs at least its whole deadline look like less than the
-- full capacity of a core: for an execution time of at least the deadline, and a deadline of 4295 µs
-- or more, admissions_control_calculate_estimate_us returns less than 1,000,000.
pub calculate_estimate_us-underestimates :
    (estimated_execution_us relative_deadline_us : ℕ)
    → 4295 ≤ relative_deadline_us
    → relative_deadline_us ≤ estimated_execution_us
    → Returns
        (λ e.
          (e < granularity)
          × (granularity ≤ estimated_execution_us * granularity / relative_deadline_us))
        (Admissions.calculate_estimate_us estimated_execution_us relative_deadline_us)
unfolding Admissions.calculate_estimate_us
calculate_estimate_us-underestimates t d lo h = (
  t * granularity % 2 ^ 32 / d,
  ground arith,
  (
    (div-lt_iff_lt-mul {k = d} {x = t * granularity % 2 ^ 32} {y = granularity} (omega arith)).1
        (omega arith),
    (le-div_iff_mul-le {k = d} {x = granularity} {y = t * granularity} (omega arith)).1
        (omega arith),
  ),
)

-- The state that admissions_info_initialize and admissions_info_update leave, as far as the next
-- update needs it.
pub record IsReady (info : Info) : Type 0 where
  pub well_formed : IsWellFormed info.perf_window
  pub is_locked : info.perf_window.is_locked ≡ false
  pub percentile : (50 ≤ info.percentile) × (info.percentile ≤ 99)
  pub control_index : info.control_index ≡ 256 * info.percentile / 100
  pub relative_deadline : 0 < info.relative_deadline
  pub fits :
      (info.perf_window.count ≡ 0)
      ⊎ ((i : ℕ) → i < 256 → Fits info.relative_deadline (time_at info.perf_window i))

-- Of an added window each time is the new one or an old one.
Added-Fits :
    (w r : PerfWindow) (newest d : ℕ)
    → Added w newest r
    → r.count ≢ 0
    → IsWellFormed w
    → Fits d newest
    → (w.count ≡ 0) ⊎ ((i : ℕ) → i < 256 → Fits d (time_at w i))
    → (i : ℕ) → i < 256
    → Fits d (time_at r i)
Added-Fits w r newest d a ne (inl z) f olds i h = elim a.well_formed [
  | inl e ↦ absurd (ne e)
  | inr (_, _, l, _) ↦ ground (arith, l.back i h, a.ring (link_at r i))
]
Added-Fits w r newest d a ne (inr (full, _, l', _)) f (inl e) i h = absurd (omega arith)
Added-Fits w r newest d a ne (inr (full, _, l', _)) f (inr olds) i h = elim a.well_formed [
  | inl e ↦ absurd (ne e)
  | inr (_, _, l, _) ↦
      let k = link_at r i in
      ground (
        arith,
        l.back i h,
        a.ring (link_at r i),
        l'.down (link_at r i),
        olds (w.by_termination (link_at r i)),
      )
]

-- What admissions_info_update leaves.
pub record Updated (info : Info) (duration : ℕ) (r : Info) : Type 0 where
  pub ready : IsReady r
  pub window :
      (k : ℕ)
      → k < 256
      → recorded r.perf_window k ≡ (
          if (info.perf_window.count == 0) || (k == info.perf_window.count % 256)
          then duration
          else recorded info.perf_window k)
  pub estimate :
      r.estimate
      ≡ time_at r.perf_window (256 * info.percentile / 100) * granularity / info.relative_deadline
  pub estimate_positive : 0 < r.estimate

relocked-IsWellFormed :
    (w : PerfWindow) (b : Bool) → IsWellFormed w → IsWellFormed (record w { is_locked = b })
unfolding IsSorted
relocked-IsWellFormed w b (inl e) = inl e
relocked-IsWellFormed w b (inr (full, bounded, l, s)) =
    inr (full, bounded, record { down = l.down; back = l.back }, s)

-- admissions_info_update, if every time of the window and the new one give an estimate that is
-- positive and fits 64 bits, and the count of executions fits them too: it takes the lock, returns
-- without a failed assertion or a panic, the new time takes the place of the oldest, the estimate is
-- the percentile's time over the relative deadline, and the lock is free again.
pub info_update_correct :
    (info : Info) (duration : ℕ)
    → IsReady info
    → 0 < duration
    → Fits info.relative_deadline duration
    → info.perf_window.count + 1 < 2 ^ 64
    → Returns (Updated info duration) (Admissions.info_update info duration)
unfolding Admissions.info_update Admissions.lock_lock
info_update_correct info duration ready p f young =
    let w₁ : PerfWindow = record info.perf_window { is_locked = true } in
    let (w₂, e₂, a) =
      add_correct w₁ duration (relocked-IsWellFormed info.perf_window true ready.well_formed) refl
        p in
    let (v, e₃, c) =
      get_percentile_correct w₂ info.percentile info.control_index a.well_formed ready.percentile.0
        ready.percentile.1 (inr ready.control_index) in
    let ne : w₂.count ≢ 0 = (λ z. ground (arith, a.count)) in
    let at : v ≡ time_at w₂ (256 * info.percentile / 100) = ground (arith, c) in
    let olds =
      Added-Fits w₁ w₂ duration info.relative_deadline a ne
        (relocked-IsWellFormed info.perf_window true ready.well_formed) f ready.fits in
    let fits : Fits info.relative_deadline v =
      ground (arith, olds (256 * info.percentile / 100) (omega (arith, ready.percentile)), at) in
    let (e₄, q) = calculate_estimate-ok v info.relative_deadline ready.relative_deadline fits in
    (
      record info {
        perf_window = record w₂ { is_locked = false };
        estimate = v * granularity / info.relative_deadline;
      },
      rw (ready.is_locked, e₂, e₃, e₄) refl,
      record {
        ready = record {
          well_formed = relocked-IsWellFormed w₂ false a.well_formed;
          is_locked = refl;
          percentile = ready.percentile;
          control_index = ready.control_index;
          relative_deadline = ready.relative_deadline;
          fits = inr olds;
        };
        window = a.ring;
        estimate = cc (at);
        estimate_positive = q;
      },
    )

-- admissions_info_initialize with a percentile of 50 … 99 and an expected execution time that fits
-- returns, and its result is ready for the first update.
pub info_initialize_correct :
    (percentile expected_execution relative_deadline : ℕ)
    → 50 ≤ percentile
    → percentile ≤ 99
    → 0 < relative_deadline
    → 0 < expected_execution
    → Fits relative_deadline expected_execution
    → Returns
        (λ info.
          IsReady info × (info.estimate ≡ expected_execution * granularity / relative_deadline))
        (Admissions.info_initialize percentile expected_execution relative_deadline)
unfolding Admissions.info_initialize PerfWindow.initialize
info_initialize_correct percentile expected relative_deadline lo hi p p' f =
    let (e, q) = calculate_estimate-ok expected relative_deadline p f in
    let a : ltb 0 relative_deadline ≡ true = ground arith in
    let b : ltb 0 expected ≡ true = ground arith in
    let c : (ltb percentile 50 || ltb 99 percentile) ≡ false = ground arith in
    (
      record {
        perf_window = PerfWindow.initialize;
        percentile = percentile;
        control_index = 256 * percentile / 100;
        estimate = expected * granularity / relative_deadline;
        relative_deadline = relative_deadline;
      },
      rw (a, b, e, c) refl,
      (
        record {
          well_formed = inl refl;
          is_locked = refl;
          percentile = (lo, hi);
          control_index = refl;
          relative_deadline = p;
          fits = inl refl;
        },
        refl,
      ),
    )
