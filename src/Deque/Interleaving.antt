-- ===== src/Deque/Interleaving.antt =====
-- One listener that pushes and any number of workers that steal, interleaved at each access to the
-- shared indices and cells, in a sequentially consistent memory (runtime/include/deque.h).
use mathlib.Core.Path.{subst}
use sledge_serverless_framew.Base.{
  ℕ, zero, suc, ◌+◌, ◌≤◌, ◌<◌, ◌≡◌, refl, sym, true, false, leb, List, [], ◌∷◌, ◌++◌, ok, arith,
  ◌==◌, if◌then◌else◌, update, Bool-cases, inl, inr,
}
use sledge_serverless_framew.Deque
use sledge_serverless_framew.Deque.{Deque, done}

-- What the listener has in its registers in a push: nothing, `ct`, `ct` and `cb`, or `cb` when it has
-- written the item to that cell.
pub data Pusher : Type 0 where
  resting : Pusher
  top_seen : ℕ → Pusher
  bottom_seen : ℕ → ℕ → Pusher
  item_written : ℕ → ℕ → Pusher

-- What a worker has in its registers: nothing, `ct`, `ct` and `cb`, or `ct` and the item.
pub data Register : Type 0 where
  idle : Register
  top_read : ℕ → Register
  bottom_read : ℕ → ℕ → Register
  item_read : ℕ → ℕ → Register

-- The deque; the listener; the workers; what was pushed, the k-th
-- at k; and what was stolen, in the order of the successful swaps.
pub record System : Type 0 where
  pub deque : Deque
  pub pushing : Pusher
  pub workers : ℕ → Register
  pub pushed : ℕ → ℕ
  pub stolen : List ℕ

pub prefix : (ℕ → ℕ) → ℕ → List ℕ
prefix f zero = []
prefix f (suc n) = prefix f n ++ (f n ∷ [])

-- The worker `i` goes on to `r`.
abbrev turn : System → ℕ → Register → ℕ → Register
turn s i r j = if i == j then r else s.workers j

pub data Step (s : System) : System → Type 0 where
  -- `ct = q->top` and `cb = q->bottom` in the listener, the test of the size, the write of the
  -- cell, and the compare-and-swap of `bottom`
  push_begins : s.pushing ≡ resting → Step s (record s { pushing = top_seen s.deque.top })
  sees_bottom :
      (ct : ℕ)
      → s.pushing ≡ top_seen ct
      → Step s (record s { pushing = bottom_seen ct s.deque.bottom })
  writes_item :
      (ct cb w : ℕ) (q : Deque)
      → s.pushing ≡ bottom_seen ct cb
      → Deque.is_full s.deque ct cb ≡ false
      → Deque.write_item s.deque cb w ≡ ok q
      → Step s (record s { deque = q; pushing = item_written cb w })
  push_ends :
      (cb w : ℕ) (q : Deque)
      → s.pushing ≡ item_written cb w
      → Deque.publish s.deque cb ≡ ok (q, done)
      → Step s (record s { deque = q; pushing = resting; pushed = update s.pushed cb w })
  push_fails :
      (ct cb : ℕ)
      → s.pushing ≡ bottom_seen ct cb
      → Deque.is_full s.deque ct cb ≡ true
      → Step s (record s { pushing = resting })
  -- `ct = deque->top`, `cb = deque->bottom` and the item in a worker
  reads_top : (i : ℕ) → Step s (record s { workers = turn s i (top_read s.deque.top) })
  reads_bottom :
      (i ct : ℕ)
      → s.workers i ≡ top_read ct
      → Step s (record s { workers = turn s i (bottom_read ct s.deque.bottom) })
  reads_item :
      (i ct cb item : ℕ)
      → s.workers i ≡ bottom_read ct cb
      → leb cb ct ≡ false
      → Deque.read_item s.deque ct ≡ ok item
      → Step s (record s { workers = turn s i (item_read ct item) })
  finds_empty :
      (i ct cb : ℕ)
      → s.workers i ≡ bottom_read ct cb
      → leb cb ct ≡ true
      → Step s (record s { workers = turn s i idle })
  -- The compare-and-swap succeeds, or fails.
  steals :
      (i ct item : ℕ) (q : Deque)
      → s.workers i ≡ item_read ct item
      → Deque.steal_swap s.deque ct ≡ (q, done)
      → Step s (record s { deque = q; workers = turn s i idle; stolen = s.stolen ++ (item ∷ []) })
  retries :
      (i ct item : ℕ)
      → s.workers i ≡ item_read ct item
      → Deque.steal_swap s.deque ct ≡ (s.deque, Deque.eagain)
      → Step s (record s { workers = turn s i idle })

pub data Reach (s : System) : System → Type 0 where
  start : Reach s s
  onward : {t u : System} → Reach s t → Step t u → Reach s u

-- What a register knows: an index that `top` has reached, and the item there.
Knows : System → Register → Type 0
Knows s idle = Unit
Knows s (top_read ct) = ct ≤ s.deque.top
Knows s (bottom_read ct cb) = (ct ≤ s.deque.top) × (cb ≤ s.deque.bottom)
Knows s (item_read ct item) = (ct ≤ s.deque.top) × (ct < s.deque.bottom) × (item ≡ s.pushed ct)

-- What the listener knows: the bottom is its own, and the cell past it holds the item.
Writes : Deque → Pusher → Type 0
Writes q resting = Unit
Writes q (top_seen ct) = Unit
Writes q (bottom_seen ct cb) = cb ≡ q.bottom
Writes q (item_written cb w) = (cb ≡ q.bottom) × (q.wrk cb ≡ w)

Writes-top : (q : Deque) (n : ℕ) (p : Pusher) → Writes q p → Writes (record q { top = n }) p
unfolding Writes
Writes-top q n resting w = tt
Writes-top q n (top_seen ct) w = tt
Writes-top q n (bottom_seen ct cb) w = w
Writes-top q n (item_written cb i) w = w

record Sound (s : System) : Type 0 where
  order : s.deque.top ≤ s.deque.bottom
  cells : (k : ℕ) → k < s.deque.bottom → s.deque.wrk k ≡ s.pushed k
  registers : (i : ℕ) → Knows s (s.workers i)
  listener : Writes s.deque s.pushing
  taken : s.stolen ≡ prefix s.pushed s.deque.top

prefix-update : (f : ℕ → ℕ) (n b w : ℕ) → n ≤ b → prefix (update f b w) n ≡ prefix f n
unfolding prefix
prefix-update f zero b w h = refl
prefix-update f (suc n) b w h = ground (arith, prefix-update f n b w)

-- A register knows as much after the indices have grown and a cell past the bottom was pushed.
Knows-later :
    (s t : System) (r : Register)
    → s.deque.top ≤ t.deque.top
    → s.deque.bottom ≤ t.deque.bottom
    → ((k : ℕ) → k < s.deque.bottom → t.pushed k ≡ s.pushed k)
    → Knows s r
    → Knows t r
unfolding Knows
Knows-later s t idle a b c k = tt
Knows-later s t (top_read ct) a b c k = omega arith
Knows-later s t (bottom_read ct cb) a b c k = ground (arith, k)
Knows-later s t (item_read ct item) a b c k = ground (arith, c ct)

-- Only the registers change, and one worker's new register is right.
turn-Sound :
    (s : System) (i : ℕ) (r : Register)
    → Sound s
    → Knows s r
    → Sound (record s { workers = turn s i r })
unfolding Knows
turn-Sound s i r a k =
    let t : System = record s { workers = turn s i r } in
    record {
      order = a.order;
      cells = a.cells;
      registers = λ j. elim (Bool-cases (i == j)) [
        | inl e ↦ rw e (Knows-later s t r (omega arith) (omega arith) (λ k h. refl) k)
        | inr e ↦ rw e (
            Knows-later s t (s.workers j) (omega arith) (omega arith) (λ k h. refl) (a.registers j))
      ];
      listener = a.listener;
      taken = a.taken;
    }

-- Only the listener's registers change.
pusher-Sound :
    (s : System) (p : Pusher) → Sound s → Writes s.deque p → Sound (record s { pushing = p })
pusher-Sound s p a w =
    let t : System = record s { pushing = p } in
    record {
      order = a.order;
      cells = a.cells;
      registers = λ i.
          Knows-later s t (s.workers i) (omega arith) (omega arith) (λ k h. refl) (a.registers i);
      listener = w;
      taken = a.taken;
    }

Step-Sound : (s t : System) → Step s t → Sound s → Sound t
unfolding Knows Writes Deque.write_item Deque.publish Deque.read_item Deque.steal_swap prefix
Step-Sound s t (push_begins e) a = pusher-Sound s (top_seen s.deque.top) a tt
Step-Sound s t (sees_bottom ct e) a = pusher-Sound s (bottom_seen ct s.deque.bottom) a refl
Step-Sound s t (writes_item ct cb w q e room p) a =
    let at : cb ≡ s.deque.bottom = subst (Writes s.deque) e a.listener in
    record {
      order = ground (arith, a.order, p);
      cells = λ k h. ground (arith, a.cells k, at, p);
      registers = λ i.
          Knows-later s t (s.workers i) (ground (arith, p)) (ground (arith, p)) (λ k h. refl)
            (a.registers i);
      listener = ground (arith, at, p);
      taken = ground (arith, a.taken, p);
    }
Step-Sound s t (push_ends cb w q e p) a =
    let (at, there) = subst (Writes s.deque) e a.listener in
    record {
      order = ground (arith, a.order, p);
      cells = λ k h. ground (arith, a.cells k, at, there, p);
      registers = λ i.
          Knows-later s t (s.workers i) (ground (arith, p)) (ground (arith, p))
            (λ k h. ground (arith, at)) (a.registers i);
      listener = tt;
      taken = ground (arith, a.taken, a.order, at, p, prefix-update s.pushed s.deque.top cb w);
    }
Step-Sound s t (push_fails ct cb e full) a = pusher-Sound s resting a tt
Step-Sound s t (reads_top i) a = turn-Sound s i (top_read s.deque.top) a (omega arith)
Step-Sound s t (reads_bottom i ct e) a =
    turn-Sound s i (bottom_read ct s.deque.bottom) a
      (let k : Knows s (top_read ct) = subst (Knows s) e (a.registers i) in ground (arith, k))
Step-Sound s t (reads_item i ct cb item e some_left p) a = turn-Sound s i (item_read ct item) a (
    let (le, lt) = subst (Knows s) e (a.registers i) in
    ground (arith, a.cells ct, le, lt, some_left, p))
Step-Sound s t (finds_empty i ct cb e none_left) a = turn-Sound s i idle a tt
Step-Sound s t (steals i ct item q e p) a =
    let (le, lt, at) = subst (Knows s) e (a.registers i) in
    let swapped : (ct ≡ s.deque.top) × (q ≡ record s.deque { top = ct + 1 }) = ground (arith, p) in
    let u : System = record s { deque = q; stolen = s.stolen ++ (item ∷ []) } in
    turn-Sound u i idle
      (record {
        order = ground (arith, swapped);
        cells = λ k h. ground (arith, a.cells k, swapped);
        registers = λ j.
            Knows-later s u (s.workers j) (ground (arith, swapped)) (ground (arith, swapped))
              (λ k h. refl) (a.registers j);
        listener =
            subst (λ d. Writes d s.pushing) (sym swapped.1)
              (Writes-top s.deque (ct + 1) s.pushing a.listener);
        taken = ground (arith, a.taken, swapped);
      })
      tt
Step-Sound s t (retries i ct item e p) a = turn-Sound s i idle a tt

Reach-Sound : (s t : System) → Reach s t → Sound s → Sound t
Reach-Sound s t start a = a
Reach-Sound s t (onward {t = u} r step) a = Step-Sound u t step (Reach-Sound s u r a)

-- After deque_init with a positive size: nothing pushed, nothing stolen, every worker idle.
abbrev pub fresh : ℕ → System
fresh size = record {
  deque = record { wrk = λ i. 0; size = size; top = 0; bottom = 0 };
  pushing = resting;
  workers = λ i. idle;
  pushed = λ i. 0;
  stolen = [];
}

-- However the pushes of the listener and the steals of any number of workers interleave, in a
-- sequentially consistent memory: what the workers stole is, in the order of their swaps, exactly the
-- first `top` sandboxes that were pushed, each once; no more was stolen than pushed; and the cells from
-- top on hold the others.
pub steals-in_order :
    (size : ℕ) (s : System)
    → Reach (fresh size) s
    → (s.stolen ≡ prefix s.pushed s.deque.top)
      × (s.deque.top ≤ s.deque.bottom)
      × ((k : ℕ) → k < s.deque.bottom → s.deque.wrk k ≡ s.pushed k)
unfolding Knows Writes prefix
steals-in_order size s r =
    let a = Reach-Sound (fresh size) s r (record {
      order = omega arith;
      cells = λ k h. refl;
      registers = λ i. tt;
      listener = tt;
      taken = refl;
    }) in
    (a.taken, a.order, a.cells)
