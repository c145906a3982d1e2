-- ===== src/Deque.antt =====
-- runtime/include/deque.h, the work-stealing deque, and its use as the global request scheduler of the
-- FIFO policy, runtime/src/global_request_scheduler_deque.c: the listener pushes, workers steal.
-- The indices are `long` and not below 0 between two operations. A sandbox is its address.
pub mod Interleaving
pub mod Overrun
mod Tests
use sledge_serverless_framew.Base.{
  ℕ, ◌+◌, ◌-◌, ◌^◌, Bool, true, false, Option, none, some, Run, ok, fault, out_of_bounds, assertion,
  ◌>>=◌, ◌>>◌, assert, ltb, leb, ◌==◌, if◌then◌else◌, update,
}

-- DEQUE_MAX_SZ
abbrev pub max_size : ℕ
max_size = 2 ^ 23

pub record Deque : Type 0 where
  pub wrk : ℕ → ℕ
  pub size : ℕ
  pub top : ℕ
  pub bottom : ℕ

-- The return codes 0, -ENOSPC, -ENOENT and -EAGAIN.
pub data Rc : Type 0 where
  done enospc enoent eagain : Rc

pub init : ℕ → Run Deque
init sz = do
  assert (leb sz max_size)
  ok (record { wrk = λ i. 0; size = if sz == 0 then max_size else sz; top = 0; bottom = 0 })

-- `size - 1 < cb - ct`, where `ct` and `cb` are what `top` and `bottom` were.
pub is_full : Deque → ℕ → ℕ → Bool
is_full q ct cb = ltb (q.size + ct) (cb + 1)

-- `q->wrk[cb] = *w`
pub write_item : Deque → ℕ → ℕ → Run Deque
write_item q cb w =
    if leb max_size cb then fault out_of_bounds else ok (record q { wrk = update q.wrk cb w })

-- The compare-and-swap of `bottom`, with its assertion.
pub publish : Deque → ℕ → Run (Deque × Rc)
publish q cb = if q.bottom == cb then ok (record q { bottom = cb + 1 }, done) else fault assertion

-- deque_push from the loads on.
pub push_from : Deque → ℕ → ℕ → ℕ → Run (Deque × Rc)
push_from q ct cb w =
    if is_full q ct cb then ok (q, enospc) else (do q' ← write_item q cb w; publish q' cb)

-- The three operations, when no other runs meanwhile.
pub push : Deque → ℕ → Run (Deque × Rc)
push q w = push_from q q.top q.bottom w

-- The second component is `*w`.
pub pop : Deque → Run (Deque × Option ℕ)
pop q =
    if leb q.bottom q.top
    then ok (record q { bottom = q.top }, none)
    else if leb (max_size + 1) q.bottom
    then fault out_of_bounds
    else if ltb (q.top + 1) q.bottom
    then ok (record q { bottom = q.bottom - 1 }, some (q.wrk (q.bottom - 1)))
    else ok (record q { top = q.top + 1; bottom = q.top + 1 }, some (q.wrk (q.bottom - 1)))

-- `deque->wrk[ct]`
unfoldable pub read_item : Deque → ℕ → Run ℕ
read_item q ct = if leb max_size ct then fault out_of_bounds else ok (q.wrk ct)

-- deque_steal up to the load of the item, at once: `none` for -ENOENT, else `ct` and the item.
unfoldable pub steal_load : Deque → ℕ → ℕ → Run (Option (ℕ × ℕ))
steal_load q ct cb = if leb cb ct then ok none else (do item ← read_item q ct; ok (some (ct, item)))

-- The compare-and-swap of `top`, and the return code.
unfoldable pub steal_swap : Deque → ℕ → Deque × Rc
steal_swap q ct = if q.top == ct then (record q { top = ct + 1 }, done) else (q, eagain)

unfoldable pub steal : Deque → Run (Deque × Rc × Option ℕ)
steal q = do
  loaded ← steal_load q q.top q.bottom
  elim loaded [
    | none ↦ ok (q, enoent, none)
    | some (ct, item) ↦ ok ((steal_swap q ct).0, (steal_swap q ct).1, some item)
  ]
