-- ===== src/Fifo/Links.antt =====
-- The doubly-linked lists that thread through the sandboxes. runtime/include/ps_list.h is a copy of
-- Parsec's, and a parameter here: the calls that the code makes of it, and what it relies on.
use sledge_serverless_framew.Base.{
  ℕ, ◌+◌, ◌≤◌, ◌≡◌, refl, Bool, true, false, List, [], ◌∷◌, ◌++◌, ◌==◌, if◌then◌else◌, one_if,
  arith, length,
}

-- The lists of a worker: its runqueue and its cleanup queue.
pub data Head : Type 0 where
  runqueue cleanup : Head

abbrev pub same : Head → Head → Bool
same runqueue runqueue = true
same cleanup cleanup = true
same _ _ = false

-- The macros of ps_list.h on the links `H`. `visited` is the sandboxes that ps_list_foreach_del_d
-- comes to.
pub record PsList (H : Type 0) : Type 0 where
  pub head_empty : H → Head → Bool
  pub head_one_node : H → Head → Bool
  pub head_first : H → Head → ℕ
  pub singleton : H → ℕ → Bool
  pub rem : H → ℕ → H
  pub head_append : H → Head → ℕ → H
  pub visited : H → Head → List ℕ

-- How often `x` is in a list.
unfoldable pub count : List ℕ → ℕ → ℕ
count [] x = 0
count (a ∷ xs) x = one_if a x + count xs x

-- A list without the node `x`.
unfoldable pub without : ℕ → List ℕ → List ℕ
without x [] = []
without x (a ∷ xs) = if a == x then without x xs else a ∷ without x xs

abbrev pub is_empty : List ℕ → Bool
is_empty [] = true
is_empty (_ ∷ _) = false

-- `contents` reads a list from its head on. A node that is removed links to itself, and a node that
-- links to itself is in no list.
pub record PsListLaws {H : Type 0} (ps : PsList H) : Type 1 where
  pub valid : H → Type 0
  pub contents : H → Head → List ℕ
  pub once :
      (h : H) (x : ℕ) → valid h → count (contents h runqueue) x + count (contents h cleanup) x ≤ 1
  pub empty : (h : H) (l : Head) → valid h → ps.head_empty h l ≡ is_empty (contents h l)
  pub one_node : (h : H) (l : Head) → valid h → ps.head_one_node h l ≡ (length (contents h l) == 1)
  pub first :
      (h : H) (l : Head) (x : ℕ) (xs : List ℕ)
      → valid h
      → contents h l ≡ x ∷ xs
      → ps.head_first h l ≡ x
  pub singleton :
      (h : H) (x : ℕ)
      → valid h
      → ps.singleton h x ≡ (count (contents h runqueue) x + count (contents h cleanup) x == 0)
  pub rem_valid : (h : H) (x : ℕ) → valid h → valid (ps.rem h x)
  pub rem :
      (h : H) (x : ℕ) (l : Head) → valid h → contents (ps.rem h x) l ≡ without x (contents h l)
  pub append_valid :
      (h : H) (l : Head) (x : ℕ) → valid h → ps.singleton h x ≡ true → valid (ps.head_append h l x)
  pub append :
      (h : H) (l k : Head) (x : ℕ)
      → valid h
      → ps.singleton h x ≡ true
      → contents (ps.head_append h l x) k
        ≡ (if same l k then contents h k ++ x ∷ [] else contents h k)
  pub visited : (h : H) (l : Head) → valid h → ps.visited h l ≡ contents h l

pub count-++ : (xs ys : List ℕ) (x : ℕ) → count (xs ++ ys) x ≡ count xs x + count ys x
unfolding count
count-++ [] ys x = omega arith
count-++ (a ∷ xs) ys x = omega (arith, count-++ xs ys x)

pub count-without :
    (y : ℕ) (xs : List ℕ) (x : ℕ) → count (without y xs) x ≡ (if y == x then 0 else count xs x)
unfolding count without
count-without y [] x = ground arith
count-without y (a ∷ xs) x = ground (arith, count-without y xs x)

-- Nothing is taken from a list that does not have the node.
pub without-absent : (x : ℕ) (xs : List ℕ) → count xs x ≡ 0 → without x xs ≡ xs
unfolding count without
without-absent x [] h = refl
without-absent x (a ∷ xs) h = ground (arith, without-absent x xs)
