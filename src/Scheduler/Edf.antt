-- ===== src/Scheduler/Edf.antt =====
-- The choice of the earliest-deadline-first policy (scheduler_edf_get_next of
-- runtime/include/scheduler.h).
use sledge_serverless_framew.Base.{
  ℕ, ◌+◌, ◌*◌, ◌^◌, ◌≤◌, ◌<◌, ◌≡◌, ◌≢◌, refl, Bool, false, Option, none, some, ok, arith, Returns,
  one_if, occurrences, ltb, inl, inr, Bool-cases,
}
use sledge_serverless_framew.PriorityQueue
use sledge_serverless_framew.PriorityQueue.{PriorityQueue, ulong_max}
use sledge_serverless_framew.PriorityQueue.Heap.{key, root_least}
use sledge_serverless_framew.PriorityQueue.Lock.{IsReady}
use sledge_serverless_framew.PriorityQueue.Api.{taken, nothing, dequeue_correct}
use sledge_serverless_framew.Scheduler
use sledge_serverless_framew.Scheduler.{deadline_of}
use sledge_serverless_framew.Scheduler.Cells.{cell-occurs, occurs-cell}
use sledge_serverless_framew.Scheduler.Runqueue.{
  IsLocal, Joined, runqueue_add_correct, get_next-cases,
}

module _ (get_priority : ℕ → ℕ) where
  -- The deadline comes before or with every one of the heap.
  abbrev pub Precedes : ℕ → PriorityQueue → Type 0
  Precedes deadline q = (i : ℕ) → 0 < i → i ≤ q.size → deadline ≤ key get_priority q i

  -- The outcome of scheduler_edf_get_next: both heaps are valid and hold together what they held, and
  -- no sandbox that was on either of them has an earlier deadline than the chosen one; NULL is chosen
  -- only if the local runqueue was empty.
  pub record Chosen (local global local' global' : PriorityQueue) (next : Option ℕ) : Type 0 where
    pub is_local : IsLocal get_priority local'
    pub ready : IsReady get_priority global'
    pub kept :
        (y : ℕ)
        → occurrences local'.items local'.size y + occurrences global'.items global'.size y
          ≡ occurrences local.items local.size y + occurrences global.items global.size y
    pub earliest_local : Precedes (deadline_of get_priority next) local
    pub earliest_global : Precedes (deadline_of get_priority next) global
    pub idle : next ≡ none → local.size ≡ 0

  -- The head of the local runqueue, as a decision leaves it.
  Head : PriorityQueue → Option ℕ → Type 0
  Head local head =
      (Scheduler.runqueue_get_next local ≡ ok head)
      × Precedes (deadline_of get_priority head) local
      × (head ≡ none → local.size ≡ 0)

  get_next-Head :
      (local : PriorityQueue) → IsLocal get_priority local → (head : Option ℕ) × Head local head
  unfolding Head
  get_next-Head local l = elim (get_next-cases get_priority local l) [
    | inl (empty, e) ↦ (none, (e, λ i p h. absurd (omega arith), λ z. empty))
    | inr (some_there, e, least) ↦ (some (local.items 1), (e, least, λ z. ground (arith, z)))
  ]

  peek-Precedes :
      (global : PriorityQueue) (d : ℕ)
      → IsReady get_priority global
      → ltb (PriorityQueue.peek global) d ≡ false
      → Precedes d global
  unfolding PriorityQueue.peek
  peek-Precedes global d ready e i p h =
      ground (arith, ready.valid.memoized, root_least get_priority global i ready.valid.heap p h)

  stays-Chosen :
      (local global : PriorityQueue) (head : Option ℕ)
      → IsLocal get_priority local
      → IsReady get_priority global
      → Head local head
      → Precedes (deadline_of get_priority head) global
      → Chosen local global local global head
  unfolding Head
  stays-Chosen local global head l ready (e, least, empty) before = record {
    is_local = l;
    ready = ready;
    kept = λ y. refl;
    earliest_local = least;
    earliest_global = before;
    idle = empty;
  }

  -- Every sandbox of a heap is on the heap that has one more.
  Joined-least :
      (q r : PriorityQueue) (sandbox d : ℕ)
      → Joined get_priority q sandbox r
      → Precedes d r
      → (d ≤ get_priority sandbox) × Precedes d q
  Joined-least q r sandbox d j before = (
    (let (i, p, h, at) = occurs-cell r.items r.size sandbox (ground (arith, j.contents sandbox)) in
        ground (arith, before i p h, at)),
    λ k p h.
        (let (i, p', h', at) =
            occurs-cell r.items r.size (q.items k)
              (ground (arith, j.contents (q.items k), cell-occurs q.items q.size k p h)) in
          ground (arith, before i p' h', at)),
  )

  moved-Chosen :
      (local global local' global' : PriorityQueue) (sandbox : ℕ)
      → Joined get_priority local sandbox local'
      → IsReady get_priority global'
      → Precedes (get_priority sandbox) global
      → ((y : ℕ)
          → occurrences global'.items global'.size y + one_if sandbox y
            ≡ occurrences global.items global.size y)
      → Precedes (key get_priority local' 1) local'
      → Chosen local global local' global' (some (local'.items 1))
  moved-Chosen local global local' global' sandbox j ready first contents least =
      let (le, before) = Joined-least local local' sandbox (key get_priority local' 1) j least in
      record {
        is_local = j.is_local;
        ready = ready;
        kept = λ y. ground (arith, j.contents y, contents y);
        earliest_local = before;
        earliest_global = λ i p h. ground (arith, le, first i p h);
        idle = λ z. ground (arith, z);
      }

  dequeued-present :
      (global g' : PriorityQueue) (sandbox : ℕ)
      → IsReady get_priority global
      → ((y : ℕ)
          → occurrences g'.items g'.size y + one_if sandbox y
            ≡ occurrences global.items global.size y)
      → sandbox ≢ 0
  dequeued-present global g' sandbox ready contents z =
      let (i, p, h, at) =
        occurs-cell global.items global.size sandbox (ground (arith, contents sandbox)) in
      ground (arith, ready.valid.live.nonnull i p h, at)

  deadline_of-le :
      ((s : ℕ) → get_priority s ≤ ulong_max)
      → (o : Option ℕ) → deadline_of get_priority o ≤ ulong_max
  deadline_of-le small none = omega arith
  deadline_of-le small (some s) = small s

  -- scheduler_edf_get_next with a valid local runqueue and a valid global one, deadlines of 64
  -- bits, room for the local heap to grow, and sandboxes whose preparation does not fail: it
  -- returns, no assertion fails, and it chooses a sandbox with the earliest deadline of all that
  -- stand on the two, moving it to the local runqueue if it was on the global one; NULL is chosen
  -- only if the local runqueue is empty and no global deadline is below ULONG_MAX. Both queues stay
  -- valid, and no sandbox is lost or doubled.
  pub edf_get_next_correct :
      (prepare_fails : ℕ → Bool) (fresh : ℕ → ℕ) (local global : PriorityQueue)
      → ((s : ℕ) → prepare_fails s ≡ false)
      → IsLocal get_priority local
      → IsReady get_priority global
      → ((s : ℕ) → get_priority s ≤ ulong_max)
      → local.capacity * 2 < 2 ^ 64
      → Returns
          (λ r. Chosen local global r.0 r.1 r.2)
          (Scheduler.edf_get_next get_priority prepare_fails false fresh local global)
  unfolding Scheduler.edf_get_next Scheduler.global_remove_if_earlier Head
  edf_get_next_correct prepare_fails fresh local global succeeds l ready small fits =
      let (head, h) = get_next-Head local l in
      let d = deadline_of get_priority head in
      let d_small : d ≤ ulong_max = deadline_of-le small head in
      elim (Bool-cases (ltb (PriorityQueue.peek global) d)) [
        | inr c ↦ (
          (local, global, head),
          ground (arith, h.0, c),
          stays-Chosen local global head l ready h (peek-Precedes global d ready c),
        )
        | inl c ↦
            let ((g', o), e, (ready', deq)) = dequeue_correct get_priority global d ready d_small in
            elim deq [
              | nothing at same late ↦ (
                (local, global, head),
                ground (arith, h.0, c, e, at, same),
                stays-Chosen local global head l ready h late,
              )
              | taken sandbox at lt first size capacity contents ↦
                  let n : sandbox ≢ 0 = dequeued-present global g' sandbox ready contents in
                  let (local', e', j) =
                    runqueue_add_correct get_priority fresh local sandbox l n (λ z. omega arith)
                      fits in
                  elim (get_next-cases get_priority local' j.is_local) [
                    | inl (empty, _) ↦ absurd (omega (arith, j.size))
                    | inr (_, e'', least) ↦ (
                      (local', g', some (local'.items 1)),
                      ground (arith, h.0, c, e, at, n, lt, succeeds sandbox, e', e''),
                      moved-Chosen local global local' g' sandbox j ready' first contents least,
                    )
                  ]
            ]
      ]
