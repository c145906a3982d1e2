-- ===== src/PriorityQueue/Session.antt =====
-- A queue from priority_queue_initialize on, and priority_queue_grow_nolock
-- (runtime/include/priority_queue.h).
use sledge_serverless_framew.Base.{
  ℕ, ◌*◌, ◌^◌, ◌≤◌, ◌<◌, ◌≡◌, ◌≢◌, refl, Bool, false, ok, arith, some, Returns, Returns-bind, ◌>>=◌,
  List, [], ◌∷◌, Run,
}
use sledge_serverless_framew.PriorityQueue
use sledge_serverless_framew.PriorityQueue.{PriorityQueue, ulong_max}
use sledge_serverless_framew.PriorityQueue.Lock.{IsReady}
use sledge_serverless_framew.PriorityQueue.Api.{enqueue_correct, dequeue_correct}

-- The calls of the schedulers.
pub data Call : Type 0 where
  enqueue : ℕ → Call
  dequeue_if_earlier : ℕ → Call

module _ (get_priority : ℕ → ℕ) where
  call : Call → PriorityQueue → Run PriorityQueue
  call (enqueue x) q = PriorityQueue.enqueue get_priority q x >>= λ r. ok r.0
  call (dequeue_if_earlier deadline) q =
      PriorityQueue.dequeue_if_earlier get_priority false q deadline >>= λ r. ok r.0

  pub calls : List Call → PriorityQueue → Run PriorityQueue
  unfolding call
  calls [] q = ok q
  calls (c ∷ cs) q = call c q >>= calls cs

  -- An element is not NULL and its priority not ULONG_MAX; a deadline is a `uint64_t`.
  abbrev IsProper : Call → Type 0
  IsProper (enqueue x) = (x ≢ 0) × (get_priority x ≢ ulong_max)
  IsProper (dequeue_if_earlier deadline) = deadline ≤ ulong_max

  abbrev pub AllProper : List Call → Type 0
  AllProper [] = Unit
  AllProper (c ∷ cs) = IsProper c × AllProper cs

  call-IsReady :
      (c : Call) (q : PriorityQueue)
      → IsProper c
      → IsReady get_priority q
      → Returns (IsReady get_priority) (call c q)
  unfolding call
  call-IsReady (enqueue x) q p h =
      Returns-bind _ _ (enqueue_correct get_priority q x h p.0 p.1)
        λ r (ready, _). (r.0, refl, ready)
  call-IsReady (dequeue_if_earlier deadline) q p h =
      Returns-bind _ _ (dequeue_correct get_priority q deadline h p)
        λ r (ready, _). (r.0, refl, ready)

  calls-IsReady_from :
      (cs : List Call) (q : PriorityQueue)
      → AllProper cs
      → IsReady get_priority q
      → Returns (IsReady get_priority) (calls cs q)
  unfolding calls
  calls-IsReady_from [] q p h = (q, refl, h)
  calls-IsReady_from (c ∷ cs) q p h =
      Returns-bind _ _ (call-IsReady c q p.0 h) λ r ready. calls-IsReady_from cs r p.1 ready

  initialize-IsReady :
      (capacity : ℕ) (use_lock : Bool)
      → Returns (IsReady get_priority) (PriorityQueue.initialize false capacity use_lock)
  unfolding PriorityQueue.initialize
  initialize-IsReady capacity use_lock = (
    _,
    refl,
    record {
      valid = record {
        live = record { bounded = omega arith; nonnull = λ i p h. absurd (omega arith) };
        heap = λ c two h. absurd (omega arith);
        memoized = refl;
      };
      free = refl;
    },
  )

  -- Any calls of enqueue and dequeue_if_earlier on a fresh queue end, without a fault, in a queue
  -- whose heap order, memoized head and lock are right. The elements are not NULL, their priorities
  -- not ULONG_MAX, `calloc` succeeds, and dequeue_if_earlier is not called by the listener, which
  -- it asserts.
  pub calls-IsReady :
      (cs : List Call) (capacity : ℕ) (use_lock : Bool)
      → AllProper cs
      → Returns
          (IsReady get_priority)
          (PriorityQueue.initialize false capacity use_lock >>= calls cs)
  calls-IsReady cs capacity use_lock p =
      Returns-bind _ _ (initialize-IsReady capacity use_lock) λ q. calls-IsReady_from cs q p

  -- priority_queue_grow_nolock gives more room if the doubled capacity fits 64 bits and `realloc`
  -- succeeds: the queue stays valid with the same cells 0 … size, whatever the new cells hold.
  pub grow_nolock-IsReady :
      (fresh : ℕ → ℕ) (q : PriorityQueue)
      → IsReady get_priority q
      → q.capacity * 2 < 2 ^ 64
      → (r : PriorityQueue) × (PriorityQueue.grow_nolock false fresh q ≡ some r)
        × IsReady get_priority r
        × (q.capacity < r.capacity)
        × (r.size ≡ q.size)
        × ((i : ℕ) → i ≤ q.size → r.items i ≡ q.items i)
  unfolding PriorityQueue.grow_nolock
  grow_nolock-IsReady fresh q h fits = (
    _,
    refl,
    record {
      valid = record {
        live = record {
          bounded = ground (arith, h.valid.live.bounded);
          nonnull = λ i p s. ground (arith, h.valid.live.bounded, h.valid.live.nonnull i);
        };
        heap = λ c two s. ground (arith, h.valid.live.bounded, h.valid.heap c two s);
        memoized = ground (arith, h.valid.live.bounded, h.valid.memoized);
      };
      free = h.free;
    },
    ground arith,
    refl,
    λ i s. ground (arith, h.valid.live.bounded),
  )
