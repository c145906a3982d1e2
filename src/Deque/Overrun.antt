-- ===== src/Deque/Overrun.antt =====
-- The deque when no other operation runs meanwhile, and the end of its array
-- (runtime/include/deque.h).
use sledge_serverless_framew.Base.{
  ℕ, ◌+◌, ◌-◌, ◌^◌, ◌≤◌, ◌<◌, ◌≡◌, refl, some, ok, fault, out_of_bounds, arith, ltb, update,
  Returns, Bool-cases, inl, inr,
}
use sledge_serverless_framew.Deque
use sledge_serverless_framew.Deque.{Deque, done}

pub record IsLive (q : Deque) : Type 0 where
  pub order : q.top ≤ q.bottom
  pub inside : q.bottom < 2 ^ 23
  pub room : q.bottom < q.top + q.size

-- A push on a live deque returns 0, and a pop after it gives the item and leaves as many items
-- as there were, and every cell below the old bottom.
pub pop-push :
    (q : Deque) (w : ℕ)
    → IsLive q
    → Returns
        (λ r.
          (r.1 ≡ done)
          × Returns
              (λ p.
                (p.1 ≡ some w)
                × (p.0.bottom - p.0.top ≡ q.bottom - q.top)
                × ((k : ℕ) → k < q.bottom → p.0.wrk k ≡ q.wrk k))
              (Deque.pop r.0))
        (Deque.push q w)
unfolding Deque.push Deque.push_from Deque.is_full Deque.write_item Deque.publish Deque.pop
pop-push q w l =
    let r : Deque = record q { wrk = update q.wrk q.bottom w; bottom = q.bottom + 1 } in
    (
      (r, done),
      ground (arith, l.room, l.inside),
      (
        refl,
        elim (Bool-cases (ltb (q.top + 1) (q.bottom + 1))) [
          | inl e ↦ (
            (record r { bottom = q.bottom }, some w),
            ground (arith, l.inside),
            (refl, ground arith, λ k h. ground arith),
          )
          | inr e ↦ (
            (record r { top = q.top + 1; bottom = q.top + 1 }, some w),
            ground (arith, l.inside, l.order),
            (refl, ground (arith, l.order), λ k h. ground arith),
          )
        ],
      ),
    )

-- A steal from a live deque that is not empty gives the oldest item and leaves the rest.
pub steal-oldest :
    (q : Deque)
    → IsLive q
    → q.top < q.bottom
    → Deque.steal q ≡ ok (record q { top = q.top + 1 }, done, some (q.wrk q.top))
unfolding Deque.steal Deque.steal_load Deque.read_item Deque.steal_swap
steal-oldest q l h = ground (arith, l.inside)

-- The array is not used as a ring, although steals make room at its start: once 2 ^ 23 sandboxes were
-- pushed, the next push, which the test of the size admits, writes past the end of the array.
pub push-overruns :
    (q : Deque) (w : ℕ)
    → q.bottom ≡ 2 ^ 23
    → q.top ≤ q.bottom
    → q.bottom < q.top + q.size
    → Deque.push q w ≡ fault out_of_bounds
unfolding Deque.push Deque.push_from Deque.is_full Deque.write_item Deque.publish
push-overruns q w e order room = ground arith
