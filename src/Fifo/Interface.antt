-- ===== src/Fifo/Interface.antt =====
-- The list of sandboxes keeps what a local runqueue promises (runtime/include/local_runqueue.h).
use sledge_serverless_framew.Base.{
  ℕ, ◌+◌, ◌<◌, ◌≡◌, ◌≢◌, refl, one_if, arith, Whenever, Returns, [], ◌∷◌, ap, ◌∙◌, ◌==◌, ◌⊎◌, inl,
  inr, Bool-cases, Run, fault, assertion,
}
use sledge_serverless_framew.Fifo
use sledge_serverless_framew.Fifo.Links.{
  runqueue, cleanup, PsList, PsListLaws, count, count-++, count-without, without-absent,
}
use sledge_serverless_framew.Fifo.Rotation.{append_correct}
use sledge_serverless_framew.Sandbox.{Sandbox}
use sledge_serverless_framew.Sandbox.Lifecycle.{RunqueueLaws}

module _ {H : Type 0} (ps : PsList H) (laws : PsListLaws ps) where
  append-count :
      (h : H) (id x : ℕ)
      → laws.valid h
      → Whenever
          (λ r.
            count (laws.contents r runqueue) x ≡ one_if id x + count (laws.contents h runqueue) x)
          (Fifo.append ps h id)
  unfolding Fifo.append count
  append-count h id x v =
      ground (
        arith,
        laws.append h runqueue runqueue id v,
        count-++ (laws.contents h runqueue) (id ∷ []) x,
      )

  append-valid : (h : H) (id : ℕ) → laws.valid h → Whenever laws.valid (Fifo.append ps h id)
  unfolding Fifo.append
  append-valid h id v = ground (arith, laws.append_valid h runqueue id v)

  remove-count :
      (h : H) (id x : ℕ)
      → laws.valid h
      → 0 < count (laws.contents h runqueue) id
      → count (laws.contents (Fifo.remove ps h id) runqueue) x + one_if id x
        ≡ count (laws.contents h runqueue) x
  unfolding Fifo.remove
  remove-count h id x v there = ground (
    arith,
    laws.once h id v,
    ap (λ l. count l x) (laws.rem h id runqueue v) ∙ count-without id (laws.contents h runqueue) x,
  )

  -- The list runqueue is a runqueue as the sandboxes need it: its members are those of the list.
  pub list_config-Laws : RunqueueLaws (Fifo.list_config ps)
  unfolding Fifo.list_config Fifo.remove
  list_config-Laws = record {
    valid = laws.valid;
    members = λ h. count (laws.contents h runqueue);
    add = λ s h x v. append-count h s.id x v;
    add_valid = λ s h v. append-valid h s.id v;
    delete = λ s h x v there. remove-count h s.id x v there;
    delete_valid = λ s h v there. laws.rem_valid h s.id v;
  }

  -- The queue `r` is `h`, with the multiset of the runqueue's sandboxes as `changed` tells.
  pub record Refines (h : H) (changed : (ℕ → ℕ) → (ℕ → ℕ) → ℕ → Type 0) (r : H) : Type 0 where
    pub valid : laws.valid r
    pub members :
        (x : ℕ) → changed (count (laws.contents r runqueue)) (count (laws.contents h runqueue)) x
    pub cleanup : laws.contents r cleanup ≡ laws.contents h cleanup

  abbrev pub OnceMore : ℕ → (ℕ → ℕ) → (ℕ → ℕ) → ℕ → Type 0
  OnceMore id after before x = after x ≡ one_if id x + before x

  abbrev pub OnceLess : ℕ → (ℕ → ℕ) → (ℕ → ℕ) → ℕ → Type 0
  OnceLess id after before x = after x + one_if id x ≡ before x

  abbrev pub IsListed : H → ℕ → Type 0
  IsListed h id = 0 < count (laws.contents h runqueue) id + count (laws.contents h cleanup) id

  -- What adding a sandbox comes to.
  abbrev pub Adds : H → ℕ → Run H → Type 0
  Adds h id run =
      ((id ≢ 0) × ¬ IsListed h id × Returns (Refines h (OnceMore id)) run)
      ⊎ (((id ≡ 0) ⊎ IsListed h id) × (run ≡ fault assertion))

  append-Adds : (h : H) (id : ℕ) → laws.valid h → Adds h id (Fifo.append ps h id)
  unfolding Fifo.append count
  append-Adds h id v = elim (Bool-cases (id == 0)) [
    | inl e ↦ inr (inl (ground (arith, e)), ground (arith, e))
    | inr e ↦
        let r = count (laws.contents h runqueue) id in
        let k = count (laws.contents h cleanup) id in
        elim (Bool-cases (r + k == 0)) [
          | inl z ↦
              let (q, run, so) =
                append_correct ps laws h id v (ground (arith, e)) (ground (arith, z))
                  (ground (arith, z)) in
              inl (
                ground (arith, e),
                (λ p. ground (arith, z, p)),
                (
                  q,
                  run,
                  record {
                    valid = so.valid;
                    members = λ x.
                        ground
                          (arith, so.contents, count-++ (laws.contents h runqueue) (id ∷ []) x);
                    cleanup = so.cleanup;
                  },
                ),
              )
          | inr z ↦ inr (inr (ground (arith, z)), ground (arith, e, z, laws.singleton h id v))
        ]
  ]

  -- The runqueue that local_runqueue_list_initialize registers refines the multiset of its
  -- sandboxes. Adding a sandbox that is not NULL and in no list returns with the sandbox once more,
  -- and adding any other fails an assertion; deleting a sandbox that is there returns with the
  -- sandbox once less. The list stays valid, and the cleanup queue is left alone.
  pub list_config_correct :
      (h : H) (new old : Sandbox)
      → laws.valid h
      → 0 < count (laws.contents h runqueue) old.id
      → Adds h new.id ((Fifo.list_config ps).add_fn new h)
        × Returns (Refines h (OnceLess old.id)) ((Fifo.list_config ps).delete_fn old h)
  unfolding Fifo.list_config Fifo.remove
  list_config_correct h new old v there = (
    append-Adds h new.id v,
    (
      ps.rem h old.id,
      refl,
      record {
        valid = laws.rem_valid h old.id v;
        members = λ x. remove-count h old.id x v there;
        cleanup =
            laws.rem h old.id cleanup v
            ∙ without-absent old.id (laws.contents h cleanup)
                (omega (arith, laws.once h old.id v, there));
      },
    ),
  )
