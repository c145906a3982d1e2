-- ===== src/Admissions/Account.antt =====
-- The admitted total while the listener decides and the workers finish requests at the same time:
-- runtime/src/admissions_control.c, called by runtime/src/listener_thread.c (one thread) and by
-- sandbox_set_as_complete and sandbox_set_as_error (the workers). Between the listener's load of the
-- total and its addition any number of requests may finish.
use sledge_serverless_framew.Base.{
  ℕ, ◌+◌, ◌^◌, ◌≤◌, ◌<◌, ◌≡◌, refl, Option, none, some, List, [], ◌∷◌, ◌++◌, ◌⊎◌, inl, ok, arith,
  ◌==◌, if◌then◌else◌,
}
use sledge_serverless_framew.Admissions
use sledge_serverless_framew.Admissions.{Control}

-- The globals, the work of the requests that are admitted and not finished, and what the listener
-- has in its registers between the load and the decision: the total and the estimate.
pub record System : Type 0 where
  pub control : Control
  pub outstanding : List ℕ
  pub loaded : Option (ℕ × ℕ)

pub sum : List ℕ → ℕ
sum [] = 0
sum (n ∷ ns) = n + sum ns

abbrev hold : ℕ → List ℕ → List ℕ
hold work ns = if work == 0 then ns else work ∷ ns

pub data Step (s : System) : System → Type 0 where
  -- `atomic_load(&admissions_control_admitted)`, for an estimate that is below half of 2 ^ 64
  loads :
      (estimate : ℕ)
      → 0 < estimate
      → estimate < 2 ^ 63
      → s.loaded ≡ none
      → Step s (record s { loaded = some (s.control.admitted, estimate) })
  -- The comparison and `admissions_control_add`.
  settles :
      (total estimate work : ℕ) (c : Control)
      → s.loaded ≡ some (total, estimate)
      → Admissions.settle s.control total estimate ≡ ok (c, work)
      → Step s (record { control = c; outstanding = hold work s.outstanding; loaded = none })
  -- A request finishes: `admissions_control_subtract` with its work.
  finishes :
      (before after : List ℕ) (work : ℕ) (c : Control)
      → s.outstanding ≡ before ++ (work ∷ after)
      → Admissions.subtract s.control work ≡ ok c
      → Step s (record s { control = c; outstanding = before ++ after })

pub data Reach (s : System) : System → Type 0 where
  start : Reach s s
  onward : {t u : System} → Reach s t → Step t u → Reach s u

sum-++ : (ns ms : List ℕ) → sum (ns ++ ms) ≡ sum ns + sum ms
unfolding sum
sum-++ [] ms = ground arith
sum-++ (n ∷ ns) ms = ground (arith, sum-++ ns ms)

-- What the listener loaded is at least the total, which only goes down meanwhile.
Pending : ℕ → Option (ℕ × ℕ) → Type 0
Pending admitted none = Unit
Pending admitted (some (total, estimate)) =
    (admitted ≤ total) × (total < 2 ^ 63) × (0 < estimate) × (estimate < 2 ^ 63)

Pending-less : {n m : ℕ} (l : Option (ℕ × ℕ)) → n ≤ m → Pending m l → Pending n l
unfolding Pending
Pending-less none h p = tt
Pending-less (some (total, estimate)) h p = ground arith

record Accounted (capacity : ℕ) (s : System) : Type 0 where
  fixed : s.control.capacity ≡ capacity
  balanced : s.control.admitted ≡ sum s.outstanding
  below : (s.control.admitted ≡ 0) ⊎ (s.control.admitted < capacity)
  pending : Pending s.control.admitted s.loaded

finishes-sum :
    (before after : List ℕ) (work : ℕ)
    → sum (before ++ (work ∷ after)) ≡ work + sum (before ++ after)
unfolding sum
finishes-sum before after work = ground (arith, sum-++ before (work ∷ after), sum-++ before after)

Step-Accounted :
    (capacity : ℕ) (s t : System)
    → capacity ≤ 2 ^ 63
    → Step s t
    → Accounted capacity s
    → Accounted capacity t
unfolding Pending Admissions.settle Admissions.add Admissions.subtract sum
Step-Accounted capacity s t h (loads estimate p small e) a = record {
  fixed = a.fixed;
  balanced = a.balanced;
  below = a.below;
  pending = ground (arith, a.below);
}
Step-Accounted capacity s t h (settles total estimate work c e r) a = record {
  fixed = ground (arith, a.fixed, a.pending, r);
  balanced = ground (arith, a.balanced, a.pending, a.below, r, e);
  below = ground (arith, a.below, a.fixed, a.pending, r, e);
  pending = tt;
}
Step-Accounted capacity s t h (finishes before after work c e r) a = record {
  fixed = ground (arith, a.fixed, r);
  balanced = ground (arith, a.balanced, finishes-sum before after work, r, e);
  below = ground (arith, a.below, r);
  pending = Pending-less s.loaded (ground (arith, r)) a.pending;
}

Reach-Accounted :
    (capacity : ℕ) (s t : System)
    → capacity ≤ 2 ^ 63
    → Accounted capacity s
    → Reach s t
    → Accounted capacity t
Reach-Accounted capacity s t h a start = a
Reach-Accounted capacity s t h a (onward {t = m} r step) =
    Step-Accounted capacity m t h step (Reach-Accounted capacity s m h a r)

-- The state after admissions_control_initialize.
abbrev pub fresh : ℕ → System
fresh capacity = record {
  control = Admissions.initialize capacity;
  outstanding = [];
  loaded = none;
}

-- In every state that the listener's loads and decisions and the workers' finished requests reach
-- from the start, in any order, if the capacity is at most 2 ^ 63 and each estimate is below that:
-- the admitted total is the sum of the work that is outstanding, and it is 0 or below the capacity.
pub reach-balanced :
    (capacity : ℕ) (s : System)
    → capacity ≤ 2 ^ 63
    → Reach (fresh capacity) s
    → (s.control.admitted ≡ sum s.outstanding)
      × ((s.control.admitted ≡ 0) ⊎ (s.control.admitted < capacity))
unfolding Admissions.initialize sum Pending
reach-balanced capacity s h r =
    let a =
      Reach-Accounted capacity (fresh capacity) s h
        (record { fixed = refl; balanced = refl; below = inl refl; pending = tt }) r in
    (a.balanced, a.below)
