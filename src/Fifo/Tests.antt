-- ===== src/Fifo/Tests.antt =====
-- The runqueue at links that are two lists, and the theorems there (runtime/src/local_runqueue_list.c).
use sledge_serverless_framew.Base.{
  ℕ, ◌≡◌, refl, some, [], ◌∷◌, ◌++◌, ◌==◌, if◌then◌else◌, arith, Returns,
}
use sledge_serverless_framew.Fifo
use sledge_serverless_framew.Fifo.Links.{count}
use sledge_serverless_framew.Fifo.Rotation.{no_turn, turn, turns, Requeued, turns-get_next}
use sledge_serverless_framew.Fifo.Samples.{Links, Once, links, links-Laws, sandbox}
use sledge_serverless_framew.Fifo.Interface.{Adds, Refines, OnceLess, list_config_correct}
use sledge_serverless_framew.Sandbox.{State, interrupted, runnable, Sandbox}

-- The sandboxes 5, 6 and 7 take turns.
abbrev three : Links
three = (5 ∷ 6 ∷ 7 ∷ [], [])

three-Once : Once three
unfolding count
three-Once x = ground arith

abbrev only : ℕ → ℕ → State
only x y = if x == y then interrupted else runnable

turns-get_next_example :
    Returns
      (λ h'.
        (Fifo.get_next links h' ≡ some 7)
        × Requeued links links-Laws three h' (7 ∷ [] ++ 5 ∷ 6 ∷ []))
      (turns links links-Laws (only 5 ∷ only 6 ∷ []) three)
unfolding links-Laws
turns-get_next_example =
    turns-get_next links links-Laws (only 5 ∷ only 6 ∷ []) three (5 ∷ 6 ∷ []) [] 7 three-Once
      (turn (only 5) (only 6 ∷ []) 5 (6 ∷ []) (ground arith) refl
        (turn (only 6) [] 6 [] (ground arith) refl no_turn))
      refl

abbrev arrived : Sandbox
arrived = record sandbox { id = 9 }

list_config_correct_example :
    Adds links links-Laws three 9 ((Fifo.list_config links).add_fn arrived three)
    × Returns
        (Refines links links-Laws three (OnceLess links links-Laws 6))
        ((Fifo.list_config links).delete_fn sandbox three)
unfolding links-Laws count
list_config_correct_example =
    list_config_correct links links-Laws three arrived sandbox three-Once (ground arith)
