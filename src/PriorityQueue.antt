-- ===== src/PriorityQueue.antt =====
-- runtime/include/priority_queue.h: a bounded binary min-heap of pointers, whose cell 0 is unused.
-- A pointer is a number and NULL is 0. `get_priority` is the callback `get_priority_fn`, which
-- dereferences its argument, and `listener` the result of `listener_thread_is_running()`.
-- The heap has fewer than 2 ^ 30 cells, so that no index held in an `int` overflows.
pub mod Heap
pub mod Up
pub mod Session
mod Tests
pub mod Lock
pub mod Api
pub mod Dequeue
pub mod Delete
pub mod Settle
pub mod Remove
pub mod Down
pub mod Enqueue
use sledge_serverless_framew.Base.{
  ℕ, zero, suc, ◌+◌, ◌-◌, ◌*◌, ◌/◌, ◌%◌, ◌^◌, Option, none, some, Bool, true, false, ◌&&◌, ◌||◌,
  not, Run, ok, fault, out_of_bounds, null_pointer, deadlock, out_of_fuel, ◌>>=◌, ◌>>◌, assert,
  panic_if, ltb, leb, ◌==◌, if◌then◌else◌, update,
}

-- ULONG_MAX, and UINT64_MAX.
abbrev pub ulong_max : ℕ
ulong_max = 2 ^ 64 - 1

-- `locked` is the state of `lock`; `items i` is the cell `items[i]`.
pub record PriorityQueue : Type 0 where
  pub use_lock : Bool
  pub locked : Bool
  pub highest_priority : ℕ
  pub size : ℕ
  pub capacity : ℕ
  pub items : ℕ → ℕ

-- 0, -ENOSPC, -ENOENT and -1.
pub data Rc : Type 0 where
  done enospc enoent not_found : Rc

unfoldable pub peek : PriorityQueue → ℕ
peek q = q.highest_priority

pub update_highest_priority : PriorityQueue → ℕ → PriorityQueue
update_highest_priority q priority = record q { highest_priority = priority }

-- `assert(!priority_queue->use_lock || lock_is_locked(&priority_queue->lock))`
abbrev pub assert_lock : PriorityQueue → Run (Unit {0})
assert_lock q = assert (not q.use_lock || q.locked)

-- A second `lock_lock` by the holder waits for ever.
pub lock_lock : PriorityQueue → Run PriorityQueue
lock_lock q = if q.locked then fault deadlock else ok (record q { locked = true })

pub lock_unlock : PriorityQueue → PriorityQueue
lock_unlock q = record q { locked = false }

-- The cells are 0 … capacity.
unfoldable pub load : PriorityQueue → ℕ → Run ℕ
load q i = if leb i q.capacity then ok (q.items i) else fault out_of_bounds

pub store : PriorityQueue → ℕ → ℕ → Run PriorityQueue
store q i p =
    if leb i q.capacity then ok (record q { items = update q.items i p }) else fault out_of_bounds

pub append : PriorityQueue → ℕ → Run (PriorityQueue × Rc)
append q new_item = do
  assert (not (new_item == 0))
  assert_lock q
  panic_if (ltb q.capacity q.size)
  if q.size == q.capacity
      then ok (q, enospc)
      else (do q' ← store q (q.size + 1) new_item; ok (record q' { size = q.size + 1 }, done))

unfoldable pub is_empty : PriorityQueue → Run Bool
is_empty q = do assert_lock q; ok (q.size == 0)

-- What `items[i]` and `items[j]` hold changes places, by way of `temp`.
pub swap : PriorityQueue → ℕ → ℕ → Run PriorityQueue
swap q i j = do temp ← load q j; moved ← load q i; q' ← store q j moved; store q' i temp

module _ (get_priority : ℕ → ℕ) where
  -- `get_priority_fn(items[i])`
  pub priority_at : PriorityQueue → ℕ → Run ℕ
  priority_at q i = do p ← load q i; if p == 0 then fault null_pointer else ok (get_priority p)

  -- The `for` loop of `priority_queue_percolate_up`; `i` halves, so `size` rounds are enough.
  pub percolate_up_loop : ℕ → PriorityQueue → ℕ → Run PriorityQueue
  percolate_up_loop zero q i = fault out_of_fuel
  percolate_up_loop (suc fuel) q i =
      let round : Run PriorityQueue = do
        mine ← priority_at q i
        above ← priority_at q (i / 2)
        let rise : Run PriorityQueue = do
          assert (not (mine == ulong_max))
          q' ← swap q i (i / 2)
          top ← (if i / 2 == 1 then priority_at q' 1 else ok q'.highest_priority)
          percolate_up_loop fuel (update_highest_priority q' top) (i / 2)
        if ltb mine above then rise else ok q
      in if i / 2 == 0 then ok q else round

  pub percolate_up : PriorityQueue → Run PriorityQueue
  percolate_up q = do
    assert_lock q
    if q.size == 1
        then (do top ← priority_at q 1; ok (update_highest_priority q top))
        else percolate_up_loop (q.size + 1) q q.size

  pub find_smallest_child : PriorityQueue → ℕ → Run ℕ
  find_smallest_child q parent_index = do
    assert (leb 1 parent_index && leb parent_index q.size)
    assert_lock q
    let left_child_index = 2 * parent_index
    let right_child_index = 2 * parent_index + 1
    left_child ← load q left_child_index
    assert (not (left_child == 0))
    if ltb q.size right_child_index then ok left_child_index else (do
      left ← priority_at q left_child_index
      right ← priority_at q right_child_index
      ok (if ltb left right then left_child_index else right_child_index))

  -- The `while` loop of `priority_queue_percolate_down`; the index doubles within `size`.
  pub percolate_down_loop : ℕ → PriorityQueue → ℕ → Run PriorityQueue
  percolate_down_loop zero q parent_index = fault out_of_fuel
  percolate_down_loop (suc fuel) q parent_index =
      let round : Run PriorityQueue = do
        child ← find_smallest_child q parent_index
        above ← priority_at q parent_index
        below ← priority_at q child
        let sink : Run PriorityQueue = do
          q' ← swap q parent_index child
          percolate_down_loop fuel q' child
        if leb above below then ok q else sink
      in if leb 2 (2 * parent_index) && leb (2 * parent_index) q.size then round else ok q

  pub memoize_head : PriorityQueue → Run PriorityQueue
  memoize_head q = do
    empty ← is_empty q
    top ← (if empty then ok ulong_max else priority_at q 1)
    ok (update_highest_priority q top)

  module _ (listener : Bool) where
    pub percolate_down : PriorityQueue → ℕ → Run PriorityQueue
    percolate_down q parent_index = do
      assert_lock q
      assert (not listener)
      q' ← percolate_down_loop (q.size + 1) q parent_index
      if parent_index == 1 then memoize_head q' else ok q'

    -- The last live cell moves to cell `i`, and its old cell becomes NULL.
    pub remove_at : PriorityQueue → ℕ → Run PriorityQueue
    remove_at q i = do
      last ← load q q.size
      q₁ ← store q i last
      q₂ ← store q₁ q.size 0
      percolate_down (record q₂ { size = q.size - 1 }) i

    -- The second component is `*dequeued_element`, which is written on success only.
    pub dequeue_if_earlier_nolock : PriorityQueue → ℕ → Run (PriorityQueue × Option ℕ)
    dequeue_if_earlier_nolock q target_deadline = do
      assert (not listener)
      assert_lock q
      empty ← is_empty q
      if empty || leb target_deadline q.highest_priority
          then ok (q, none)
          else (do top ← load q 1; q' ← remove_at q 1; ok (q', some top))

    pub dequeue_if_earlier : PriorityQueue → ℕ → Run (PriorityQueue × Option ℕ)
    dequeue_if_earlier q target_deadline = do
      q₁ ← lock_lock q
      (q₂, r) ← dequeue_if_earlier_nolock q₁ target_deadline
      ok (lock_unlock q₂, r)

    pub dequeue : PriorityQueue → Run (PriorityQueue × Option ℕ)
    dequeue q = dequeue_if_earlier q ulong_max

    pub dequeue_nolock : PriorityQueue → Run (PriorityQueue × Option ℕ)
    dequeue_nolock q = dequeue_if_earlier_nolock q ulong_max

    -- The `for` loop of `priority_queue_delete_nolock`, with the rounds that are left.
    pub delete_loop : ℕ → PriorityQueue → ℕ → ℕ → Run (PriorityQueue × Rc)
    delete_loop zero q i value = ok (q, not_found)
    delete_loop (suc rounds) q i value =
        let next = delete_loop rounds q (i + 1) value in
        let found : Run (PriorityQueue × Rc) = (do q' ← remove_at q i; ok (q', done)) in
        load q i >>= λ p. if p == value then found else next

    pub delete_nolock : PriorityQueue → ℕ → Run (PriorityQueue × Rc)
    delete_nolock q value = do
      assert (not (value == 0))
      assert_lock q
      delete_loop q.size q 1 value

    pub delete : PriorityQueue → ℕ → Run (PriorityQueue × Rc)
    delete q value = do q₁ ← lock_lock q; (q₂, rc) ← delete_nolock q₁ value; ok (lock_unlock q₂, rc)

  pub enqueue_nolock : PriorityQueue → ℕ → Run (PriorityQueue × Rc)
  enqueue_nolock q value = do
    assert (not (value == 0))
    assert_lock q
    (q₁, rc) ← append q value
    elim rc [ enospc ↦ ok (q₁, enospc) | _ ↦ percolate_up q₁ >>= λ q₂. ok (q₂, done) ]

  pub enqueue : PriorityQueue → ℕ → Run (PriorityQueue × Rc)
  enqueue q value = do q₁ ← lock_lock q; (q₂, rc) ← enqueue_nolock q₁ value; ok (lock_unlock q₂, rc)

-- `calloc` gives NULL, which is dereferenced at once, or zeroed cells.
pub initialize : Bool → ℕ → Bool → Run PriorityQueue
initialize calloc_fails capacity use_lock =
    if calloc_fails
    then fault null_pointer
    else ok (record {
      use_lock = use_lock;
      locked = false;
      highest_priority = ulong_max;
      size = 0;
      capacity = capacity;
      items = λ _. 0;
    })

-- `none` is the NULL of a failed `realloc`; the added cells hold what `fresh` says.
unfoldable pub grow_nolock : Bool → (ℕ → ℕ) → PriorityQueue → Option PriorityQueue
grow_nolock realloc_fails fresh q =
    let capacity = if q.capacity == 0 then 1 else q.capacity * 2 % 2 ^ 64 in
    if realloc_fails
    then none
    else some (record q {
      capacity = capacity;
      items = λ i. if leb i q.capacity then q.items i else fresh i;
    })

pub length_nolock : PriorityQueue → Run ℕ
length_nolock q = do assert_lock q; ok q.size

pub length : PriorityQueue → Run (PriorityQueue × ℕ)
length q = do q₁ ← lock_lock q; size ← length_nolock q₁; ok (lock_unlock q₁, size)

unfoldable pub top_nolock : PriorityQueue → Run (Option ℕ)
top_nolock q = do
  assert_lock q
  empty ← is_empty q
  if empty then ok none else (do top ← load q 1; ok (some top))

pub top : PriorityQueue → Run (PriorityQueue × Option ℕ)
top q = do q₁ ← lock_lock q; r ← top_nolock q₁; ok (lock_unlock q₁, r)
