-- ===== src/Sandbox/Reach.antt =====
-- All lives of a sandbox: any sequence of moves, interrupts and doings of other sandboxes
-- (runtime/include/scheduler.h, runtime/src/current_sandbox.c and software_interrupt.c).
use sledge_serverless_framew.Base.{
  ℕ, ◌+◌, ◌^◌, ◌≤◌, ◌<◌, ◌≡◌, ◌≢◌, true, false, ok, arith, none, some, if◌then◌else◌,
}
use sledge_serverless_framew.Sandbox.{
  State, uninitialized, initialized, running_user, interrupted, Config, Sandbox, Worker,
  RunqueueConfig,
}
use sledge_serverless_framew.Sandbox.Moves.{
  Move, move, initialize, dispatch, interrupt, return_to, preempt, fail,
}
use sledge_serverless_framew.Sandbox.Time.{IsTimed, total, move-IsTimed}
use sledge_serverless_framew.Sandbox.Lifecycle.{
  RunqueueLaws, queued, finished, released, underlying, answers, Inv, plain, plain-move-Inv,
  initialize-Inv, dispatch-Inv, interrupt-Inv, return_to-Inv, preempt-Inv, fail-Inv,
}

-- A worker, a sandbox on it, and the state that an interrupt handler goes back to.
pub record Point (Q : Type 0) : Type 0 where
  pub worker : Worker Q
  pub sandbox : Sandbox
  pub saved : State

module _ {Q : Type 0} (queue : RunqueueConfig Q) (laws : RunqueueLaws queue) (c : Config)
    (session : ℕ) where
  -- The clock does not run backwards, and fits 64 bits.
  abbrev Ticks : ℕ → Sandbox → Type 0
  Ticks now s = (s.last_state_change ≤ now) × (now < 2 ^ 64)

  pub data Step (p : Point Q) : Point Q → Type 0 where
    moves :
        (now : ℕ) (m : Move) (w' : Worker Q) (s' : Sandbox)
        → plain m ≡ true
        → Ticks now p.sandbox
        → move queue c now m p.worker p.sandbox ≡ ok (w', s')
        → Step p (record { worker = w'; sandbox = s'; saved = p.saved })
    initializes :
        (now : ℕ) (w' : Worker Q) (s' : Sandbox)
        → p.sandbox.state ≡ uninitialized
        → Ticks now p.sandbox
        → move queue c now initialize p.worker p.sandbox ≡ ok (w', s')
        → Step p (record { worker = w'; sandbox = s'; saved = p.saved })
    interrupts :
        (now : ℕ) (w' : Worker Q) (s' : Sandbox)
        → p.sandbox.state ≢ interrupted
        → Ticks now p.sandbox
        → move queue c now interrupt p.worker p.sandbox ≡ ok (w', s')
        → Step p (record { worker = w'; sandbox = s'; saved = p.sandbox.state })
    returns :
        (now : ℕ) (w' : Worker Q) (s' : Sandbox)
        → Ticks now p.sandbox
        → move queue c now (return_to p.saved) p.worker p.sandbox ≡ ok (w', s')
        → Step p (record { worker = w'; sandbox = s'; saved = p.saved })
    preempts :
        (now : ℕ) (w' : Worker Q) (s' : Sandbox)
        → p.saved ≡ running_user
        → Ticks now p.sandbox
        → move queue c now preempt p.worker p.sandbox ≡ ok (w', s')
        → Step p (record { worker = w'; sandbox = s'; saved = p.saved })
    fails :
        (now : ℕ) (w' : Worker Q) (s' : Sandbox)
        → p.sandbox.state ≡ initialized
        → Ticks now p.sandbox
        → move queue c now fail p.worker p.sandbox ≡ ok (w', s')
        → Step p (record { worker = w'; sandbox = s'; saved = p.saved })
    -- A sandbox whose preparation failed is not made runnable.
    dispatches :
        (now : ℕ) (w' : Worker Q) (s' : Sandbox)
        → p.sandbox.state ≡ initialized
        → Ticks now p.sandbox
        → move queue c now dispatch p.worker p.sandbox ≡ ok (w', s')
        → Step p (record { worker = w'; sandbox = s'; saved = p.saved })
    -- `sandbox_prepare_execution_environment` gives the sandbox its linear memory.
    prepares :
        p.sandbox.state ≡ initialized
        → Step p (record p { sandbox = record p.sandbox { memory = true } })
    -- Other sandboxes use the worker.
    others :
        (w' : Worker Q)
        → laws.valid w'.runqueue
        → laws.members w'.runqueue p.sandbox.id ≡ laws.members p.worker.runqueue p.sandbox.id
        → answers session w'.effects ≡ answers session p.worker.effects
        → Step p (record p { worker = w' })

  pub data Reach (p : Point Q) : Point Q → Type 0 where
    here : Reach p p
    next : {q r : Point Q} → Reach p q → Step q r → Reach p r

  abbrev pub PointInv : Point Q → Type 0
  PointInv p = Inv queue laws c session p.worker p.sandbox p.saved × IsTimed p.sandbox

  Step-PointInv : {p q : Point Q} → Step p q → PointInv p → PointInv q
  Step-PointInv {p = p} (moves now m w' s' plain t e) (i, timed) = (
    plain-move-Inv queue laws c session now p.worker w' p.sandbox s' p.saved i m plain e,
    (move-IsTimed queue c now p.worker p.sandbox m t.1 timed t.0 e).0,
  )
  Step-PointInv {p = p} (initializes now w' s' u t e) (i, timed) = (
    initialize-Inv queue laws c session now p.worker w' p.sandbox s' p.saved i u e,
    (move-IsTimed queue c now p.worker p.sandbox initialize t.1 timed t.0 e).0,
  )
  Step-PointInv {p = p} (interrupts now w' s' n t e) (i, timed) = (
    interrupt-Inv queue laws c session now p.worker w' p.sandbox s' p.saved i n e,
    (move-IsTimed queue c now p.worker p.sandbox interrupt t.1 timed t.0 e).0,
  )
  Step-PointInv {p = p} (returns now w' s' t e) (i, timed) = (
    return_to-Inv queue laws c session now p.worker w' p.sandbox s' p.saved i e,
    (move-IsTimed queue c now p.worker p.sandbox (return_to p.saved) t.1 timed t.0 e).0,
  )
  Step-PointInv {p = p} (preempts now w' s' u t e) (i, timed) = (
    preempt-Inv queue laws c session now p.worker w' p.sandbox s' p.saved i u e,
    (move-IsTimed queue c now p.worker p.sandbox preempt t.1 timed t.0 e).0,
  )
  Step-PointInv {p = p} (fails now w' s' u t e) (i, timed) = (
    fail-Inv queue laws c session now p.worker w' p.sandbox s' p.saved i u e,
    (move-IsTimed queue c now p.worker p.sandbox fail t.1 timed t.0 e).0,
  )
  Step-PointInv {p = p} (dispatches now w' s' u t e) (i, timed) = (
    dispatch-Inv queue laws c session now p.worker w' p.sandbox s' p.saved i u e,
    (move-IsTimed queue c now p.worker p.sandbox dispatch t.1 timed t.0 e).0,
  )
  Step-PointInv {p = p} (prepares u) (i, timed) = (ground arith, timed)
  Step-PointInv {p = p} (others w' v m a) (i, timed) = (ground arith, timed)

  Reach-PointInv : {p q : Point Q} → Reach p q → PointInv p → PointInv q
  Reach-PointInv here i = i
  Reach-PointInv (next r st) i = Step-PointInv st (Reach-PointInv r i)

  -- A sandbox as it is allocated for an HTTP session, not on the runqueue of a worker that has not
  -- yet answered the session.
  pub record Fresh (p : Point Q) : Type 0 where
    pub state : p.sandbox.state ≡ uninitialized
    pub saved : p.saved ≡ uninitialized
    pub http : p.sandbox.http ≡ some session
    pub valid : laws.valid p.worker.runqueue
    pub unqueued : laws.members p.worker.runqueue p.sandbox.id ≡ 0
    pub unanswered : answers session p.worker.effects ≡ 0
    pub timed : IsTimed p.sandbox

  Fresh-PointInv : {p : Point Q} → Fresh p → PointInv p
  Fresh-PointInv {p = p} f = (ground arith, f.timed)

  -- However a fresh sandbox lives, if it is made runnable only when its preparation has not failed:
  -- the time since its allocation is the sum of the times in its states, it stands on the runqueue
  -- exactly once while it is runnable, running or preempted and not otherwise (under an interrupt:
  -- while the interrupted state is one of these), and its client is answered exactly once, when it
  -- has returned or failed, and then it no longer holds the session; a sandbox that has returned
  -- holds no linear memory.
  pub Reach-accounts :
      {p q : Point Q}
      → Fresh p
      → Reach p q
      → (total q.sandbox.duration_of_state + q.sandbox.allocation ≡ q.sandbox.last_state_change)
        × (laws.members q.worker.runqueue q.sandbox.id
            ≡ queued (underlying q.sandbox.state q.saved))
        × (answers session q.worker.effects
            ≡ (if finished (underlying q.sandbox.state q.saved) then 1 else 0))
        × (finished (underlying q.sandbox.state q.saved) ≡ true → q.sandbox.http ≡ none)
        × (released (underlying q.sandbox.state q.saved) ≡ true → q.sandbox.memory ≡ false)
  Reach-accounts f r =
      let (i, timed) = Reach-PointInv r (Fresh-PointInv f) in
      (timed, i.on_runqueue, i.answered, λ e. ground (arith, i.session_held), i.memory_freed)
