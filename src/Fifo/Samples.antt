-- ===== src/Fifo/Samples.antt =====
-- Links between sandboxes that are two lists (runtime/include/ps_list.h), for the tests.
use sledge_serverless_framew.Base.{
  ℕ, ◌+◌, ◌≤◌, ◌≡◌, refl, true, some, List, [], ◌∷◌, ◌++◌, ◌==◌, if◌then◌else◌, arith, length,
}
use sledge_serverless_framew.Fifo.Links.{
  Head, runqueue, cleanup, same, PsList, PsListLaws, count, without, is_empty, count-++,
  count-without,
}
use sledge_serverless_framew.Sandbox.{runnable, Sandbox}

abbrev pub Links : Type 0
Links = List ℕ × List ℕ

abbrev pub listed : Links → Head → List ℕ
listed h runqueue = h.0
listed h cleanup = h.1

abbrev pub first : List ℕ → ℕ
first [] = 0
first (x ∷ _) = x

-- A node stands in one list at most, and there once.
abbrev pub Once : Links → Type 0
Once h = (x : ℕ) → count h.0 x + count h.1 x ≤ 1

abbrev pub links : PsList Links
links = record {
  head_empty = λ h l. is_empty (listed h l);
  head_one_node = λ h l. length (listed h l) == 1;
  head_first = λ h l. first (listed h l);
  singleton = λ h x. count h.0 x + count h.1 x == 0;
  rem = λ h x. (without x h.0, without x h.1);
  head_append = λ h l x. (
    if same l runqueue then h.0 ++ x ∷ [] else h.0,
    if same l cleanup then h.1 ++ x ∷ [] else h.1,
  );
  visited = listed;
}

pub rem-Once :
    (h : Links) (x y : ℕ) → Once h → count (without x h.0) y + count (without x h.1) y ≤ 1
rem-Once h x y v = ground (arith, v y, count-without x h.0 y, count-without x h.1 y)

pub append-Once :
    (h : Links) (l : Head) (x y : ℕ)
    → Once h
    → (count h.0 x + count h.1 x == 0) ≡ true
    → count (links.head_append h l x).0 y + count (links.head_append h l x).1 y ≤ 1
unfolding count
append-Once h runqueue x y v s = ground (arith, v y, v x, count-++ h.0 (x ∷ []) y)
append-Once h cleanup x y v s = ground (arith, v y, v x, count-++ h.1 (x ∷ []) y)

pub append-listed :
    (h : Links) (l k : Head) (x : ℕ)
    → listed (links.head_append h l x) k ≡ (if same l k then listed h k ++ x ∷ [] else listed h k)
append-listed h runqueue runqueue x = refl
append-listed h runqueue cleanup x = refl
append-listed h cleanup runqueue x = refl
append-listed h cleanup cleanup x = refl

pub rem-listed : (h : Links) (x : ℕ) (l : Head) → listed (links.rem h x) l ≡ without x (listed h l)
rem-listed h x runqueue = refl
rem-listed h x cleanup = refl

pub first-cons : (xs ys : List ℕ) (x : ℕ) → xs ≡ x ∷ ys → first xs ≡ x
first-cons xs ys x e = ground (arith, e)

unfoldable pub links-Laws : PsListLaws links
links-Laws = record {
  valid = Once;
  contents = listed;
  once = λ h x v. v x;
  empty = λ h l v. refl;
  one_node = λ h l v. refl;
  first = λ h l x xs v e. first-cons (listed h l) xs x e;
  singleton = λ h x v. refl;
  rem_valid = λ h x v y. rem-Once h x y v;
  rem = λ h x l v. rem-listed h x l;
  append_valid = λ h l x v s y. append-Once h l x y v s;
  append = λ h l k x v s. append-listed h l k x;
  visited = λ h l v. refl;
}

abbrev pub sandbox : Sandbox
sandbox = record {
  id = 6;
  state = runnable;
  state_history = [];
  route = 3;
  tenant = 2;
  http = some 40;
  memory = true;
  last_state_change = 100;
  allocation = 100;
  dispatched = 0;
  completion = 0;
  duration_of_state = λ s. 0;
  last_state_duration = 0;
  absolute_deadline = 900;
  admissions_estimate = 20;
  total_time = 0;
}
