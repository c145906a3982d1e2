-- ===== src/Fifo.antt =====
-- The local runqueue of the FIFO policy and the cleanup queue: runtime/src/local_runqueue_list.c
-- and the list of runtime/src/local_cleanup_queue.c. A sandbox is its address, 0 for NULL; the
-- links between the sandboxes are `H`, and ps_list.h a parameter.
pub mod Links
pub mod Rotation
pub mod Interface
pub mod Samples
mod Tests
use sledge_serverless_framew.Base.{
  ℕ, Bool, not, Option, none, some, Run, ok, ◌>>=◌, ◌>>◌, assert, ◌==◌, if◌then◌else◌,
}
use sledge_serverless_framew.Fifo.Links.{Head, runqueue, cleanup, PsList}
use sledge_serverless_framew.Sandbox.{State, interrupted, index, Sandbox, RunqueueConfig}

module _ {H : Type 0} (ps : PsList H) where
  unfoldable pub is_empty : H → Bool
  is_empty h = ps.head_empty h runqueue

  unfoldable pub get_head : H → ℕ
  get_head h = ps.head_first h runqueue

  unfoldable pub remove : H → ℕ → H
  remove h sandbox_to_remove = ps.rem h sandbox_to_remove

  unfoldable pub remove_and_return : H → H × ℕ
  remove_and_return h =
      let sandbox_to_remove = ps.head_first h runqueue in
      (ps.rem h sandbox_to_remove, sandbox_to_remove)

  unfoldable pub append : H → ℕ → Run H
  append h sandbox_to_append = do
    assert (not (sandbox_to_append == 0))
    assert (ps.singleton h sandbox_to_append)
    ok (ps.head_append h runqueue sandbox_to_append)

  -- `state_of` gives the states of the sandboxes.
  unfoldable pub rotate : (ℕ → State) → H → Run H
  rotate state_of h = if ps.head_one_node h runqueue then ok h else (do
    let sandbox_at_head = (remove_and_return h).1
    assert (index (state_of sandbox_at_head) == index interrupted)
    append (remove_and_return h).0 sandbox_at_head)

  -- `none` for NULL.
  unfoldable pub get_next : H → Option ℕ
  get_next h = if is_empty h then none else some (get_head h)

  -- local_cleanup_queue_add
  unfoldable pub cleanup_add : H → ℕ → Run H
  cleanup_add h sandbox = do
    assert (not (sandbox == 0))
    assert (ps.singleton h sandbox)
    let h' = ps.head_append h cleanup sandbox
    assert (not (ps.head_empty h' cleanup))
    ok h'

  -- What local_runqueue_list_initialize registers.
  unfoldable pub list_config : RunqueueConfig H
  list_config = record {
    add_fn = λ sandbox h. append h sandbox.id;
    delete_fn = λ sandbox h. ok (remove h sandbox.id);
  }
