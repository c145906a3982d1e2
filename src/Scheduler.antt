-- ===== src/Scheduler.antt =====
-- The earliest-deadline-first policy: runtime/src/local_runqueue_minheap.c,
-- runtime/src/global_request_scheduler_minheap.c and scheduler_edf_get_next of
-- runtime/include/scheduler.h. A sandbox is its address, 0 for NULL, and get_priority gives its
-- absolute deadline. Of sandbox_prepare_execution_environment, the state that it leaves is seen
-- here, and of sandbox_set_as_runnable, that the sandbox is added to the runqueue; WorkerThread and
-- Sandbox have the rest.
pub mod Cells
pub mod Runqueue
pub mod Edf
mod Tests
use sledge_serverless_framew.Base.{
  ℕ, Bool, true, false, not, Option, none, some, Run, ok, fault, panicked, ◌>>=◌, ◌>>◌, assert,
  panic_if, ltb, ◌==◌, if◌then◌else◌,
}
use sledge_serverless_framew.PriorityQueue
use sledge_serverless_framew.Sandbox.{State, initialized, error, index}
use sledge_serverless_framew.PriorityQueue.{PriorityQueue, Rc, done, enospc, not_found, ulong_max}

-- The state of an initialized sandbox after sandbox_prepare_execution_environment, by whether that
-- fails.
abbrev pub prepared : Bool → State
prepared false = initialized
prepared true = error

pub runqueue_get_next : PriorityQueue → Run (Option ℕ)
runqueue_get_next q = PriorityQueue.top_nolock q

module _ (get_priority : ℕ → ℕ) where
  -- If the queue is full it grows, and the sandbox is enqueued again.
  pub runqueue_add : Bool → (ℕ → ℕ) → PriorityQueue → ℕ → Run PriorityQueue
  runqueue_add realloc_fails fresh q sandbox = do
    (q₁, rc) ← PriorityQueue.enqueue_nolock get_priority q sandbox
    elim rc [
      | enospc ↦ elim (PriorityQueue.grow_nolock realloc_fails fresh q₁) [
        | none ↦ fault panicked
        | some q₂ ↦ (do
          (q₃, rc') ← PriorityQueue.enqueue_nolock get_priority q₂ sandbox
          elim rc' [ enospc ↦ fault panicked | _ ↦ ok q₃ ])
      ]
      | _ ↦ ok q₁
    ]

  pub runqueue_delete : PriorityQueue → ℕ → Run PriorityQueue
  runqueue_delete q sandbox = do
    assert (not (sandbox == 0))
    (q', rc) ← PriorityQueue.delete_nolock get_priority false q sandbox
    elim rc [ not_found ↦ fault panicked | _ ↦ ok q' ]

  -- `none` for NULL. Only the listener may call it.
  pub global_add : Bool → PriorityQueue → ℕ → Run (PriorityQueue × Option ℕ)
  global_add listener q sandbox = do
    assert (not (sandbox == 0))
    panic_if (not listener)
    (q', rc) ← PriorityQueue.enqueue get_priority q sandbox
    elim rc [ done ↦ ok (q', some sandbox) | _ ↦ ok (q', none) ]

  pub global_remove_if_earlier : PriorityQueue → ℕ → Run (PriorityQueue × Option ℕ)
  global_remove_if_earlier q target_deadline =
      PriorityQueue.dequeue_if_earlier get_priority false q target_deadline

  abbrev pub deadline_of : Option ℕ → ℕ
  deadline_of none = ulong_max
  deadline_of (some sandbox) = get_priority sandbox

  -- The local runqueue, the global one, and the sandbox to run, `none` for NULL. `prepare_fails` tells
  -- of the preparation of each sandbox.
  pub edf_get_next :
      (ℕ → Bool)
      → Bool
      → (ℕ → ℕ)
      → PriorityQueue
      → PriorityQueue
      → Run (PriorityQueue × PriorityQueue × Option ℕ)
  edf_get_next prepare_fails realloc_fails fresh local global = do
    head ← runqueue_get_next local
    let local_deadline = deadline_of head
    (local', global') ←
        (if ltb (PriorityQueue.peek global) local_deadline
          then (do
            (g, removed) ← global_remove_if_earlier global local_deadline
            elim removed [
              | none ↦ ok (local, g)
              | some sandbox ↦ (do
                assert (not (sandbox == 0))
                assert (ltb (get_priority sandbox) local_deadline)
                assert (index (prepared (prepare_fails sandbox)) == index initialized)
                l ← runqueue_add realloc_fails fresh local sandbox
                ok (l, g))
            ])
          else ok (local, global))
    next ← runqueue_get_next local'
    ok (local', global', next)
