-- ===== src/Admissions/Tests.antt =====
-- Runs of the admissions control (runtime/src/admissions_control.c, admissions_info.c), and its
-- theorems at concrete states.
use sledge_serverless_framew.Base.{
  ◌<◌, ◌≡◌, refl, ok, arith, Returns, ◌⊎◌, inl, [], ◌∷◌, none, some,
}
use sledge_serverless_framew.PerfWindow
use sledge_serverless_framew.Admissions
use sledge_serverless_framew.Admissions.{Control, Info, granularity}
use sledge_serverless_framew.Admissions.Estimate.{IsReady, Updated, info_update_correct}
use sledge_serverless_framew.Admissions.Account.{
  System, Reach, loads, settles, finishes, start, onward, fresh, sum, reach-balanced,
}

-- The state of a new route: percentile 90, a deadline of 5000 cycles.
abbrev sample : Info
sample = record {
  perf_window = PerfWindow.initialize;
  percentile = 90;
  control_index = 230;
  estimate = 200000;
  relative_deadline = 5000;
}

sample-IsReady : IsReady sample
unfolding PerfWindow.initialize
sample-IsReady = record {
  well_formed = inl refl;
  is_locked = refl;
  percentile = (omega arith, omega arith);
  control_index = refl;
  relative_deadline = omega arith;
  fits = inl refl;
}

info_update_correct_example : Returns (Updated sample 1500) (Admissions.info_update sample 1500)
unfolding PerfWindow.initialize
info_update_correct_example =
    info_update_correct sample 1500 sample-IsReady (omega arith) (omega arith, omega arith)
      (omega arith)

-- The 1.8 cores that this request needs are taken for 0.082 of one.
underestimated : Admissions.calculate_estimate_us 9000 5000 ≡ ok 82013
unfolding Admissions.calculate_estimate_us
underestimated = refl

abbrev busy : Control
busy = record { admitted = 700000; capacity = 800000 }

-- One request is admitted and finishes while the listener decides on another.
abbrev after_load : System
after_load = record (fresh 800000) { loaded = some (0, 300000) }

abbrev admitted : System
admitted = record {
  control = record { admitted = 300000; capacity = 800000 };
  outstanding = 300000 ∷ [];
  loaded = none;
}

abbrev deciding : System
deciding = record admitted { loaded = some (300000, 200000) }

abbrev finished : System
finished = record deciding {
  control = record { admitted = 0; capacity = 800000 };
  outstanding = [];
}

abbrev settled : System
settled = record {
  control = record { admitted = 200000; capacity = 800000 };
  outstanding = 200000 ∷ [];
  loaded = none;
}

session : Reach (fresh 800000) settled
unfolding Admissions.settle Admissions.add Admissions.subtract Admissions.initialize
session =
    onward {t = finished}
      (onward {t = deciding}
        (onward {t = admitted}
          (onward {t = after_load} (onward start (loads 300000 (omega arith) (omega arith) refl))
            (settles 0 300000 300000 admitted.control refl refl))
          (loads 200000 (omega arith) (omega arith) refl))
        (finishes [] [] 300000 finished.control refl refl))
      (settles 300000 200000 200000 settled.control refl refl)

reach-balanced_example :
    (settled.control.admitted ≡ sum settled.outstanding)
    × ((settled.control.admitted ≡ 0) ⊎ (settled.control.admitted < 800000))
reach-balanced_example = reach-balanced 800000 settled (omega arith) session
