-- ===== src/Admissions/Decide.antt =====
-- The decision of the admissions control: runtime/src/admissions_control.c.
use sledge_serverless_framew.Base.{
  ℕ, ◌+◌, ◌^◌, ◌≤◌, ◌<◌, ◌≡◌, refl, ◌⊎◌, inl, inr, ok, arith, leb, Returns, Bool-cases,
}
use sledge_serverless_framew.Admissions
use sledge_serverless_framew.Admissions.{Control}

-- admissions_control_decide with a positive estimate, while the admitted total is at most the
-- capacity and the sum fits 64 bits, returns. It rejects, with 0 and no change, just when the
-- capacity would be reached; else it returns the estimate, the total stays below the capacity, and
-- admissions_control_subtract with the estimate returns and leaves the state from before.
pub decide_correct :
    (c : Control) (estimate : ℕ)
    → 0 < estimate
    → c.admitted + estimate < 2 ^ 64
    → Returns
        (λ r.
          ((c.capacity ≤ c.admitted + estimate) × (r.1 ≡ 0) × (r.0 ≡ c))
          ⊎ ((c.admitted + estimate < c.capacity)
              × (r.1 ≡ estimate)
              × (r.0.admitted < c.capacity)
              × (r.0.capacity ≡ c.capacity)
              × (Admissions.subtract r.0 estimate ≡ ok c)))
        (Admissions.decide c estimate)
unfolding Admissions.decide Admissions.settle Admissions.add Admissions.subtract
decide_correct c estimate p fits = elim (Bool-cases (leb c.capacity (c.admitted + estimate))) [
  | inl e ↦ ((c, 0), ground arith, inl (ground arith, refl, refl))
  | inr e ↦ (
    (record c { admitted = c.admitted + estimate }, estimate),
    ground arith,
    inr (ground arith, refl, ground arith, refl, ground arith),
  )
]
