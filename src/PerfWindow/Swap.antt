-- ===== src/PerfWindow/Swap.antt =====
-- The links between the two orders of a perf window, and how perf_window_swap keeps them
-- (runtime/include/perf_window.h).
use sledge_serverless_framew.Base.{ℕ, ◌<◌, ◌≡◌, ◌≢◌, refl, true, ok, arith}
use sledge_serverless_framew.PerfWindow
use sledge_serverless_framew.PerfWindow.{PerfWindow, time_at, link_at, capacity, exchanged}

-- Each cell of the ring points at the node that points back at it, and each node so.
pub record Linked (w : PerfWindow) : Type 0 where
  pub down : (k : ℕ) → k < 256 → (w.by_termination k < 256) × (link_at w (w.by_termination k) ≡ k)
  pub back : (i : ℕ) → i < 256 → (link_at w i < 256) × (w.by_termination (link_at w i) ≡ i)

-- The execution time that the ring holds in cell `k`.
abbrev pub recorded : PerfWindow → ℕ → ℕ
recorded w k = time_at w (w.by_termination k)

-- `r` is `w` in another order by duration.
pub record Reordered (w r : PerfWindow) : Type 0 where
  pub linked : Linked r
  pub is_locked : r.is_locked ≡ true
  pub count : r.count ≡ w.count
  pub same : (k : ℕ) → k < 256 → recorded r k ≡ recorded w k

module _ (w : PerfWindow) (i j : ℕ) (l : Linked w) (held : w.is_locked ≡ true) where
  links_differ : i < 256 → j < 256 → i ≢ j → link_at w i ≢ link_at w j
  links_differ p q ne e = ground (arith, l.back i p, l.back j q)

  pub swap-exchanged : i < 256 → j < 256 → i ≢ j → PerfWindow.swap w i j ≡ ok (exchanged w i j)
  unfolding PerfWindow.swap
  swap-exchanged p q ne = ground (arith, l.back i p, l.back j q, links_differ p q ne)

  exchanged-Linked : i < 256 → j < 256 → i ≢ j → Linked (exchanged w i j)
  exchanged-Linked p q ne = record {
    down = λ k h. ground (arith, l.back i p, l.back j q, links_differ p q ne, l.down k h);
    back = λ a h. ground (arith, l.back i p, l.back j q, links_differ p q ne, l.back a h);
  }

  pub exchanged-Reordered : i < 256 → j < 256 → i ≢ j → Reordered w (exchanged w i j)
  exchanged-Reordered p q ne = record {
    linked = exchanged-Linked p q ne;
    is_locked = held;
    count = refl;
    same = λ k h. ground (arith, l.back i p, l.back j q, links_differ p q ne, l.down k h);
  }

pub Reordered-trans : (w r s : PerfWindow) → Reordered w r → Reordered r s → Reordered w s
Reordered-trans w r s a b = record {
  linked = b.linked;
  is_locked = b.is_locked;
  count = cc (a.count, b.count);
  same = λ k h. cc (a.same k h, b.same k h);
}
