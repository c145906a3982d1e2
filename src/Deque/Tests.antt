-- ===== src/Deque/Tests.antt =====
-- Runs of the deque, and its theorems at concrete ones (runtime/include/deque.h).
use sledge_serverless_framew.Base.{ℕ, ◌+◌, ◌≤◌, ◌<◌, ◌≡◌, refl, [], ◌∷◌, arith, update}
use sledge_serverless_framew.Deque
use sledge_serverless_framew.Deque.{Deque, done}
use sledge_serverless_framew.Deque.Overrun.{IsLive}
use sledge_serverless_framew.Deque.Interleaving.{
  System, Reach, idle, top_read, bottom_read, item_read, top_seen, bottom_seen, item_written,
  prefix, push_begins, sees_bottom, writes_item, push_ends, reads_top, reads_bottom, reads_item,
  steals, retries, start, onward, fresh, steals-in_order,
}

-- The sandboxes 7 and 8.
abbrev sample : Deque
sample = record { wrk = λ i. i + 7; size = 4; top = 0; bottom = 2 }

sample-IsLive : IsLive sample
sample-IsLive = record { order = omega arith; inside = omega arith; room = omega arith }

-- All but two of the sandboxes that were pushed are gone.
abbrev worn : Deque
worn = record { wrk = λ i. 5; size = 524288; top = 8388606; bottom = 8388608 }

-- Two workers go for one sandbox, and one of them gets it.
abbrev loaded : System
loaded = record (fresh 4) { pushing = top_seen 0 }

abbrev ready : System
ready = record loaded { pushing = bottom_seen 0 0 }

abbrev written_deque : Deque
written_deque = record loaded.deque { wrk = update (λ i. 0) 0 9 }

abbrev written : System
written = record ready { deque = written_deque; pushing = item_written 0 9 }

abbrev filled : System
filled = record (fresh 4) {
  deque = record { wrk = update (λ i. 0) 0 9; size = 4; top = 0; bottom = 1 };
  pushed = update (λ i. 0) 0 9;
}

abbrev first_top : System
first_top = record filled { workers = update filled.workers 1 (top_read 0) }

abbrev both_top : System
both_top = record filled { workers = update first_top.workers 2 (top_read 0) }

abbrev first_bottom : System
first_bottom = record filled { workers = update both_top.workers 1 (bottom_read 0 1) }

abbrev both_bottom : System
both_bottom = record filled { workers = update first_bottom.workers 2 (bottom_read 0 1) }

abbrev first_item : System
first_item = record filled { workers = update both_bottom.workers 1 (item_read 0 9) }

abbrev both_item : System
both_item = record filled { workers = update first_item.workers 2 (item_read 0 9) }

abbrev stolen_deque : Deque
stolen_deque = record filled.deque { top = 1 }

abbrev one_stolen : System
one_stolen = record both_item {
  deque = stolen_deque;
  workers = update both_item.workers 2 idle;
  stolen = 9 ∷ [];
}

abbrev settled : System
settled = record one_stolen { workers = update one_stolen.workers 1 idle }

one_pushed : Reach (fresh 4) filled
unfolding Deque.is_full Deque.write_item Deque.publish
one_pushed =
    onward {t = written}
      (onward {t = ready}
        (onward {t = loaded} (onward start (push_begins refl)) (sees_bottom 0 refl))
        (writes_item 0 0 9 written_deque refl refl refl))
      (push_ends 0 9 filled.deque refl refl)

both_loaded : Reach (fresh 4) both_bottom
both_loaded =
    onward {t = first_bottom}
      (onward {t = both_top}
        (onward {t = first_top} (onward one_pushed (reads_top 1)) (reads_top 2))
        (reads_bottom 1 0 refl))
      (reads_bottom 2 0 refl)

session : Reach (fresh 4) settled
unfolding Deque.read_item Deque.steal_swap
session =
    onward {t = one_stolen}
      (onward {t = both_item}
        (onward {t = first_item} (onward both_loaded (reads_item 1 0 1 9 refl refl refl))
          (reads_item 2 0 1 9 refl refl refl))
        (steals 2 0 9 stolen_deque refl refl))
      (retries 1 0 9 refl refl)

steals-in_order_example :
    (settled.stolen ≡ prefix settled.pushed settled.deque.top)
    × (settled.deque.top ≤ settled.deque.bottom)
    × ((k : ℕ) → k < settled.deque.bottom → settled.deque.wrk k ≡ settled.pushed k)
steals-in_order_example = steals-in_order 4 settled session
