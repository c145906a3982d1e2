-- ===== src/Fifo/Rotation.antt =====
-- The round robin of local_runqueue_list_rotate (runtime/src/local_runqueue_list.c).
use sledge_serverless_framew.Base.{
  ℕ, ◌≡◌, ◌≢◌, refl, sym, ap, ◌∙◌, true, none, some, List, [], ◌∷◌, ◌++◌, Run, ok, ◌>>=◌, arith,
  length, Returns, Returns-map,
}
use mathlib.Core.List.{append_assoc, append-nil}
use sledge_serverless_framew.Fifo
use sledge_serverless_framew.Fifo.Links.{
  runqueue, cleanup, PsList, PsListLaws, count, without, without-absent,
}
use sledge_serverless_framew.Sandbox.{State, interrupted}

module _ {H : Type 0} (ps : PsList H) (laws : PsListLaws ps) where
  pub get_next-nil :
      (h : H) → laws.valid h → laws.contents h runqueue ≡ [] → Fifo.get_next ps h ≡ none
  unfolding Fifo.get_next Fifo.is_empty
  get_next-nil h v e = ground (arith, laws.empty h runqueue v, e)

  pub get_next-cons :
      (h : H) (x : ℕ) (xs : List ℕ)
      → laws.valid h
      → laws.contents h runqueue ≡ x ∷ xs
      → Fifo.get_next ps h ≡ some x
  unfolding Fifo.get_next Fifo.is_empty Fifo.get_head
  get_next-cons h x xs v e =
      ground (arith, laws.empty h runqueue v, laws.first h runqueue x xs v e, e)

  -- `h'` is `h` with other contents of the runqueue.
  pub record Requeued (h h' : H) (xs : List ℕ) : Type 0 where
    pub valid : laws.valid h'
    pub contents : laws.contents h' runqueue ≡ xs
    pub cleanup : laws.contents h' cleanup ≡ laws.contents h cleanup

  pub append_correct :
      (h : H) (x : ℕ)
      → laws.valid h
      → x ≢ 0
      → count (laws.contents h runqueue) x ≡ 0
      → count (laws.contents h cleanup) x ≡ 0
      → Returns (λ h'. Requeued h h' (laws.contents h runqueue ++ x ∷ [])) (Fifo.append ps h x)
  unfolding Fifo.append
  append_correct h x v n r k =
      let single : ps.singleton h x ≡ true = ground (arith, laws.singleton h x v) in
      (
        ps.head_append h runqueue x,
        ground (arith, single),
        record {
          valid = laws.append_valid h runqueue x v single;
          contents = laws.append h runqueue runqueue x v single;
          cleanup = laws.append h runqueue cleanup x v single;
        },
      )

  pub head-once :
      (h : H) (x : ℕ) (xs : List ℕ)
      → laws.valid h
      → laws.contents h runqueue ≡ x ∷ xs
      → (count xs x ≡ 0) × (count (laws.contents h cleanup) x ≡ 0)
  unfolding count
  head-once h x xs v e = (ground (arith, laws.once h x v, e), ground (arith, laws.once h x v, e))

  pub remove-head :
      (h : H) (x : ℕ) (xs : List ℕ)
      → laws.valid h
      → laws.contents h runqueue ≡ x ∷ xs
      → Requeued h (ps.rem h x) xs
  unfolding without
  remove-head h x xs v e =
      let (o, k) = head-once h x xs v e in
      record {
        valid = laws.rem_valid h x v;
        contents = ground (arith, laws.rem h x runqueue v, e, without-absent x xs o);
        cleanup = laws.rem h x cleanup v ∙ without-absent x (laws.contents h cleanup) k;
      }

  rotate-alone :
      (state_of : ℕ → State) (h : H) (x : ℕ)
      → laws.valid h
      → laws.contents h runqueue ≡ x ∷ []
      → Fifo.rotate ps state_of h ≡ ok h
  unfolding Fifo.rotate length
  rotate-alone state_of h x v e = ground (arith, laws.one_node h runqueue v, e)

  rotate-many :
      (state_of : ℕ → State) (h h' : H) (x y : ℕ) (ys : List ℕ)
      → laws.valid h
      → laws.contents h runqueue ≡ x ∷ y ∷ ys
      → state_of x ≡ interrupted
      → Fifo.append ps (ps.rem h x) x ≡ ok h'
      → Fifo.rotate ps state_of h ≡ ok h'
  unfolding Fifo.rotate Fifo.remove_and_return length
  rotate-many state_of h h' x y ys v e s a =
      ground (arith, laws.one_node h runqueue v, laws.first h runqueue x (y ∷ ys) v e, e, a)

  -- local_runqueue_list_rotate with an interrupted sandbox at the head returns, and the head
  -- becomes the tail; the other sandboxes keep their order.
  pub rotate_correct :
      (state_of : ℕ → State) (h : H) (x : ℕ) (xs : List ℕ)
      → laws.valid h
      → laws.contents h runqueue ≡ x ∷ xs
      → x ≢ 0
      → state_of x ≡ interrupted
      → Returns (λ h'. Requeued h h' (xs ++ x ∷ [])) (Fifo.rotate ps state_of h)
  rotate_correct state_of h x [] v e n s =
      (h, rotate-alone state_of h x v e, record { valid = v; contents = e; cleanup = refl })
  rotate_correct state_of h x (y ∷ ys) v e n s =
      let gone = remove-head h x (y ∷ ys) v e in
      let (o, k) = head-once h x (y ∷ ys) v e in
      let (h', a, q) =
        append_correct (ps.rem h x) x gone.valid n (ap (λ l. count l x) gone.contents ∙ o)
          (ap (λ l. count l x) gone.cleanup ∙ k) in
      (
        h',
        rotate-many state_of h h' x y ys v e s a,
        record {
          valid = q.valid;
          contents = q.contents ∙ ap (λ l. l ++ x ∷ []) gone.contents;
          cleanup = q.cleanup ∙ gone.cleanup;
        },
      )

  -- One rotation after the other, each with the states of its moment.
  unfoldable pub turns : List (ℕ → State) → H → Run H
  turns [] h = ok h
  turns (state_of ∷ moments) h = do h' ← Fifo.rotate ps state_of h; turns moments h'

  -- Each sandbox of a list is interrupted at its moment.
  pub data Interrupts : List (ℕ → State) → List ℕ → Type 0 where
    no_turn : Interrupts [] []
    turn :
        (state_of : ℕ → State) (moments : List (ℕ → State)) (x : ℕ) (xs : List ℕ)
        → x ≢ 0
        → state_of x ≡ interrupted
        → Interrupts moments xs
        → Interrupts (state_of ∷ moments) (x ∷ xs)

  turns_lem :
      (moments : List (ℕ → State)) (h : H) (xs zs : List ℕ)
      → Interrupts moments xs
      → laws.valid h
      → laws.contents h runqueue ≡ xs ++ zs
      → Returns (λ h'. Requeued h h' (zs ++ xs)) (turns moments h)
  unfolding turns
  turns_lem [] h [] zs no_turn v e =
      (h, refl, record { valid = v; contents = e ∙ sym (append-nil zs); cleanup = refl })
  turns_lem [] h (x ∷ xs) zs i v e = elim i [ ]
  turns_lem (state_of ∷ moments) h [] zs i v e = elim i [ ]
  turns_lem (state_of ∷ moments) h (x ∷ xs) zs (turn _ _ _ _ n s i) v e =
      let (h₁, r, q) = rotate_correct state_of h x (xs ++ zs) v e n s in
      let (h₂, t, q') =
        turns_lem moments h₁ xs (zs ++ x ∷ []) i q.valid
          (q.contents ∙ append_assoc xs zs (x ∷ [])) in
      (
        h₂,
        ground (arith, r, t),
        record {
          valid = q'.valid;
          contents = q'.contents ∙ append_assoc zs (x ∷ []) xs;
          cleanup = q'.cleanup ∙ q.cleanup;
        },
      )

  -- Every sandbox of the runqueue gets its turn: after one local_runqueue_list_rotate for each
  -- sandbox before it, local_runqueue_list_get_next gives it, if each of those is interrupted when
  -- it is rotated; they follow at the end, in their order.
  pub turns-get_next :
      (moments : List (ℕ → State)) (h : H) (xs ys : List ℕ) (z : ℕ)
      → laws.valid h
      → Interrupts moments xs
      → laws.contents h runqueue ≡ xs ++ z ∷ ys
      → Returns
          (λ h'. (Fifo.get_next ps h' ≡ some z) × Requeued h h' (z ∷ ys ++ xs))
          (turns moments h)
  turns-get_next moments h xs ys z v i e =
      Returns-map (turns moments h) (turns_lem moments h xs (z ∷ ys) i v e)
        (λ h' q. (get_next-cons h' z (ys ++ xs) q.valid q.contents, q))
