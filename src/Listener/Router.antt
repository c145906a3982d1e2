-- ===== src/Listener/Router.antt =====
-- The routes of a tenant (runtime/include/http_router.h). A string is the list of its bytes, which are
-- not 0.
use mathlib.Core.Path.{subst}
use mathlib.Core.List.{append_assoc}
use sledge_serverless_framew.Base.{
  ℕ, zero, suc, ◌+◌, ◌<◌, ◌≡◌, refl, ap, ◌∙◌, Bool, true, false, ◌&&◌, Option, none, some, List, [],
  ◌∷◌, ◌++◌, if◌then◌else◌, ◌==◌, arith, Bool-cases, inl, inr,
}

-- `strncmp(url, route, strlen(route)) == 0`
unfoldable pub begins_with : List ℕ → List ℕ → Bool
begins_with url [] = true
begins_with [] (c ∷ route) = false
begins_with (b ∷ url) (c ∷ route) = b == c && begins_with url route

-- http_router_match_route: the index of the route, `none` for NULL. `i` is the index of the first route
-- that is still to be tried.
unfoldable pub match_from : ℕ → List (List ℕ) → List ℕ → Option ℕ
match_from i [] url = none
match_from i (route ∷ routes) url =
    let rest = match_from (i + 1) routes url in if begins_with url route then some i else rest

abbrev pub match_route : List (List ℕ) → List ℕ → Option ℕ
match_route routes url = match_from 0 routes url

-- The route at an index.
unfoldable pub route_at : List (List ℕ) → ℕ → Option (List ℕ)
route_at [] n = none
route_at (route ∷ routes) zero = some route
route_at (route ∷ routes) (suc n) = route_at routes n

-- What a string begins with is the string up to the rest.
pub begins_with-++ : (route rest : List ℕ) → begins_with (route ++ rest) route ≡ true
unfolding begins_with
begins_with-++ [] [] = refl
begins_with-++ [] (b ∷ rest) = refl
begins_with-++ (c ∷ route) rest = ground (arith, begins_with-++ route rest)

-- Only its own beginnings.
pub begins_with-only :
    (url route : List ℕ) → begins_with url route ≡ true → (rest : List ℕ) × (url ≡ route ++ rest)
unfolding begins_with
begins_with-only [] [] h = ([], refl)
begins_with-only (b ∷ url) [] h = (b ∷ url, refl)
begins_with-only [] (c ∷ route) h = absurd (ground (arith, h))
begins_with-only (b ∷ url) (c ∷ route) h =
    let (rest, e) = begins_with-only url route (ground (arith, h)) in
    let same : b ≡ c = ground (arith, h) in (rest, ap (λ x. x ∷ url) same ∙ ap (λ l. c ∷ l) e)

-- How the search ends, from an index on.
pub data Found (first : ℕ) (routes : List (List ℕ)) (url : List ℕ) : Option ℕ → Type 0 where
  no_route :
      ((k : ℕ) (route : List ℕ) → route_at routes k ≡ some route → begins_with url route ≡ false)
      → Found first routes url none
  route_found :
      (k : ℕ) (route rest : List ℕ)
      → route_at routes k ≡ some route
      → url ≡ route ++ rest
      → ((j : ℕ) (other : List ℕ)
          → j < k
          → route_at routes j ≡ some other
          → begins_with url other ≡ false)
      → Found first routes url (some (first + k))

misses :
    (route : List ℕ) (routes : List (List ℕ)) (url : List ℕ)
    → begins_with url route ≡ false
    → (k : ℕ) (other : List ℕ) → route_at (route ∷ routes) k ≡ some other
    → ((n : ℕ) → k ≡ suc n → route_at routes n ≡ some other → begins_with url other ≡ false)
    → begins_with url other ≡ false
unfolding route_at
misses route routes url miss zero other at tail = ground (arith, at, miss)
misses route routes url miss (suc n) other at tail = tail n refl at

later :
    (i : ℕ) (route : List ℕ) (routes : List (List ℕ)) (url : List ℕ)
    → begins_with url route ≡ false
    → (r : Option ℕ) → Found (i + 1) routes url r
    → Found i (route ∷ routes) url r
unfolding route_at
later i route routes url miss none (no_route f) =
    no_route (λ k other at. misses route routes url miss k other at (λ n _. f n other))
later i route routes url miss (some n) (route_found k found rest at e f) =
    let next : i + suc k ≡ i + 1 + k = omega arith in
    subst (λ n. Found i (route ∷ routes) url (some n)) next
      (route_found (suc k) found rest at e (λ j other less at'.
        misses route routes url miss j other at' (λ m is. f m other (omega (arith, less, is)))))

match_from-Found :
    (i : ℕ) (routes : List (List ℕ)) (url : List ℕ) → Found i routes url (match_from i routes url)
unfolding match_from route_at
match_from-Found i [] url = no_route (λ k route e. absurd (ground (arith, e)))
match_from-Found i (route ∷ routes) url = elim (Bool-cases (begins_with url route)) [
  | inl hit ↦
      let (rest, e) = begins_with-only url route hit in
      let here : i + 0 ≡ i = omega arith in
      rw hit (
        subst (λ n. Found i (route ∷ routes) url (some n)) here
          (route_found 0 route rest refl e (λ j other less at. absurd (omega (arith, less)))))
  | inr miss ↦ rw miss (
      later i route routes url miss (match_from (i + 1) routes url)
        (match_from-Found (i + 1) routes url))
]

-- http_router_match_route finds the first route, in the order of the configuration, that the URL begins
-- with, and gives NULL just if the URL begins with none.
pub match_route_correct :
    (routes : List (List ℕ)) (url : List ℕ) → Found 0 routes url (match_route routes url)
match_route_correct routes url = match_from-Found 0 routes url

-- A route is matched by every URL that goes on where the route ends: of two routes, the second is never
-- found if it begins with the first.
pub match_route-shadows :
    (route more rest : List ℕ) (routes : List (List ℕ))
    → match_route (route ∷ (route ++ more) ∷ routes) ((route ++ more) ++ rest) ≡ some 0
unfolding match_from
match_route-shadows route more rest routes =
    let e : begins_with ((route ++ more) ++ rest) route ≡ true =
      ap (λ l. begins_with l route) (append_assoc route more rest)
      ∙ begins_with-++ route (more ++ rest) in
    ground (arith, e)
