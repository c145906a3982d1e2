-- ===== src/Scheduler/Tests.antt =====
-- A run of the earliest-deadline-first policy, and its theorems at concrete queues
-- (runtime/include/scheduler.h, runtime/src/local_runqueue_minheap.c).
use sledge_serverless_framew.Base.{
  ℕ, ◌%◌, ◌^◌, refl, true, false, arith, Returns, ◌==◌, if◌then◌else◌,
}
use sledge_serverless_framew.PriorityQueue.{PriorityQueue}
use sledge_serverless_framew.PriorityQueue.Lock.{IsReady}
use sledge_serverless_framew.Scheduler
use sledge_serverless_framew.Scheduler.Runqueue.{IsLocal}
use sledge_serverless_framew.Scheduler.Edf.{Chosen, edf_get_next_correct}

-- The deadline of a sandbox is its number, in 64 bits.
abbrev deadline : ℕ → ℕ
deadline s = s % 2 ^ 64

abbrev fresh : ℕ → ℕ
fresh i = 77

-- Full, with the sandbox 9.
abbrev local : PriorityQueue
local = record {
  use_lock = false;
  locked = false;
  highest_priority = 9;
  size = 1;
  capacity = 1;
  items = λ i. if i == 1 then 9 else 0;
}

-- The sandboxes 4 and 6.
abbrev global : PriorityQueue
global = record {
  use_lock = true;
  locked = false;
  highest_priority = 4;
  size = 2;
  capacity = 8;
  items = λ i. if i == 1 then 4 else if i == 2 then 6 else 0;
}

local-IsLocal : IsLocal deadline local
local-IsLocal = record {
  valid = record {
    live = record { bounded = omega arith; nonnull = λ i p h. ground arith };
    heap = λ c two h. absurd (omega arith);
    memoized = refl;
  };
  use_lock = refl;
  free = refl;
}

global-IsReady : IsReady deadline global
global-IsReady = record {
  valid = record {
    live = record { bounded = omega arith; nonnull = λ i p h. ground arith };
    heap = λ c two h. ground arith;
    memoized = refl;
  };
  free = refl;
}

edf_get_next_correct_example :
    Returns
      (λ r. Chosen deadline local global r.0 r.1 r.2)
      (Scheduler.edf_get_next deadline (λ s. false) false fresh local global)
edf_get_next_correct_example =
    edf_get_next_correct deadline (λ s. false) fresh local global (λ s. refl) local-IsLocal
      global-IsReady (λ s. omega arith) (omega arith)
