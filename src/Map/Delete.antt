-- ===== src/Map/Delete.antt =====
-- What map_delete removes, and which keys share a value (runtime/include/map.h).
use sledge_serverless_framew.Base.{
  ℕ, ◌≡◌, ◌≢◌, refl, true, false, none, some, List, [], ◌∷◌, fault, null_pointer, arith, ◌==◌,
  if◌then◌else◌, update, Returns, Returns-map, inl, inr,
}
use sledge_serverless_framew.Map
use sledge_serverless_framew.Map.{Map, Node, find, bucket_count, bucket_of, jenkins_hash}
use sledge_serverless_framew.Map.View.{Chained, IsWellFormed, map_set_correct}

module _ (hash_of : List ℕ → ℕ) where
  -- `r` reads as `m`, but that the hash `gone` is not there.
  abbrev pub Loses : Map → ℕ → Map → Type 0
  Loses m gone r =
      (other : List ℕ)
      → Map.map_get hash_of r other
        ≡ (if hash_of other == gone then none else Map.map_get hash_of m other)

  -- The chain is shorter by its first node, or by its second one.
  abbrev shortened : Map → List ℕ → List Node → Map
  shortened m key nodes = update m (bucket_of hash_of key) nodes

  delete_first-Loses :
      (m : Map) (key : List ℕ) (prev : Node) (nodes : List Node)
      → IsWellFormed m
      → m (bucket_of hash_of key) ≡ prev ∷ nodes
      → prev.hash ≡ hash_of key
      → IsWellFormed (shortened m key nodes) × Loses m (hash_of key) (shortened m key nodes)
  unfolding Map.map_get find
  delete_first-Loses m key prev nodes wf e h =
      let c : Chained (bucket_of hash_of key) (prev ∷ nodes) =
        rw e at (wf (bucket_of hash_of key)) in
      (λ b. ground (arith, wf b, c), λ other. ground (arith, c))

  delete_second-Loses :
      (m : Map) (key : List ℕ) (prev node : Node) (nodes : List Node)
      → IsWellFormed m
      → m (bucket_of hash_of key) ≡ prev ∷ node ∷ nodes
      → IsWellFormed (shortened m key (prev ∷ nodes))
        × Loses m node.hash (shortened m key (prev ∷ nodes))
  unfolding Map.map_get find
  delete_second-Loses m key prev node nodes wf e =
      let c : Chained (bucket_of hash_of key) (prev ∷ node ∷ nodes) =
        rw e at (wf (bucket_of hash_of key)) in
      (λ b. ground (arith, wf b, c), λ other. ground (arith, c))

  -- map_delete of a key whose node is the first of its chain returns `true`, and removes the key's
  -- hash and nothing else from a well-formed table, which stays well-formed.
  pub map_delete_first :
      (m : Map) (key : List ℕ) (prev : Node) (nodes : List Node)
      → IsWellFormed m
      → m (bucket_of hash_of key) ≡ prev ∷ nodes
      → prev.hash ≡ hash_of key
      → Returns
          (λ r. (r.1 ≡ true) × IsWellFormed r.0 × Loses m (hash_of key) r.0)
          (Map.map_delete hash_of 0 m key)
  unfolding Map.map_delete Map.delete_chain
  map_delete_first m key prev nodes wf e h =
      let (w, l) = delete_first-Loses m key prev nodes wf e h in
      let same : (prev.hash == hash_of key) ≡ true = ground arith in
      rw (e, same) ((shortened m key nodes, true), refl, (refl, w, l))

  -- map_delete of a key whose node is not the first of a chain of two or more returns `true`, and
  -- removes the second node of the chain, whatever its key: the table loses the hash of that node,
  -- not that of the key.
  pub map_delete_second :
      (m : Map) (key : List ℕ) (prev node : Node) (nodes : List Node)
      → IsWellFormed m
      → m (bucket_of hash_of key) ≡ prev ∷ node ∷ nodes
      → prev.hash ≢ hash_of key
      → Returns
          (λ r. (r.1 ≡ true) × IsWellFormed r.0 × Loses m node.hash r.0)
          (Map.map_delete hash_of 0 m key)
  unfolding Map.map_delete Map.delete_chain Map.delete_second
  map_delete_second m key prev node nodes wf e n =
      let (w, l) = delete_second-Loses m key prev node nodes wf e in
      let other : (prev.hash == hash_of key) ≡ false = ground arith in
      rw (e, other) ((shortened m key (prev ∷ nodes), true), refl, (refl, w, l))

  -- map_delete of a key whose chain is empty dereferences NULL.
  pub map_delete_empty :
      (m : Map) (key : List ℕ)
      → m (bucket_of hash_of key) ≡ []
      → Map.map_delete hash_of 0 m key ≡ fault null_pointer
  unfolding Map.map_delete Map.delete_chain
  map_delete_empty m key e = rw e

-- A leading zero byte does not change the hash.
jenkins_hash-zero : (key : List ℕ) → jenkins_hash (0 ∷ key) ≡ jenkins_hash key
unfolding jenkins_hash
jenkins_hash-zero key = refl

-- Two different keys share one value: after map_set of a key that was not there, map_get finds its
-- value under the key with a zero byte in front as well.
pub map_set_collides :
    (m : Map) (key value : List ℕ)
    → IsWellFormed m
    → Map.map_get jenkins_hash m key ≡ none
    → Returns
        (λ r.
          (Map.map_get jenkins_hash r.0 key ≡ some value)
          × (Map.map_get jenkins_hash r.0 (0 ∷ key) ≡ some value))
        (Map.map_set jenkins_hash 0 m key value)
map_set_collides m key value wf absent =
    Returns-map _ (map_set_correct jenkins_hash m key value wf) λ r (_, outcome). elim outcome [
      | inl (_, _, reads) ↦
          (ground (arith, reads key), ground (arith, reads (0 ∷ key), jenkins_hash-zero key))
      | inr (_, present, _) ↦ absurd (present absent)
    ]
