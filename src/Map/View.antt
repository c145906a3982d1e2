-- ===== src/Map/View.antt =====
-- What map_get sees of the table after map_set and map_upsert (runtime/include/map.h).
use sledge_serverless_framew.Base.{
  ℕ, ◌%◌, ◌≡◌, ◌≢◌, refl, true, false, Option, none, some, List, [], ◌∷◌, arith, ◌==◌,
  if◌then◌else◌, update, Returns, length, ◌<◌, inl, inr, Option-cases, ◌⊎◌,
}
use sledge_serverless_framew.Map
use sledge_serverless_framew.Map.{Map, Node, find, bucket_count, bucket_of, new_node}

-- The nodes of a chain belong to its bucket, and no two of them have one hash.
abbrev pub Chained : ℕ → List Node → Type 0
Chained b [] = Unit
Chained b (node ∷ nodes) =
    (node.hash % bucket_count ≡ b) × (find node.hash nodes ≡ none) × Chained b nodes

abbrev pub IsWellFormed : Map → Type 0
IsWellFormed m = (b : ℕ) → Chained b (m b)

pub find-hash :
    (hash : ℕ) (nodes : List Node) (node : Node) → find hash nodes ≡ some node → node.hash ≡ hash
unfolding find
find-hash hash [] node e = cc
find-hash hash (n ∷ nodes) node e = ground (arith, find-hash hash nodes node)

find-overwrite :
    (hash other : ℕ) (value : List ℕ) (nodes : List Node)
    → find other (Map.overwrite hash value nodes) ≡ (elim (find other nodes) [
      | none ↦ none
      | some node ↦ some (if other == hash then record node { value = value } else node)
    ])
unfolding find Map.overwrite
find-overwrite hash other value [] = refl
find-overwrite hash other value (node ∷ nodes) =
    ground (arith, find-overwrite hash other value nodes)

Chained-overwrite :
    (b hash : ℕ) (value : List ℕ) (nodes : List Node)
    → Chained b nodes
    → Chained b (Map.overwrite hash value nodes)
unfolding Map.overwrite
Chained-overwrite b hash value [] c = tt
Chained-overwrite b hash value (node ∷ nodes) c =
    ground (arith, Chained-overwrite b hash value nodes, find-overwrite hash node.hash value nodes)

-- What map_get finds for a hash.
abbrev value_of : Option Node → Option (List ℕ)
value_of none = none
value_of (some node) = some node.value

module _ (hash_of : List ℕ → ℕ) where
  -- After `write`, the key's hash has the value, and all else is as it was.
  abbrev pub Reads : Map → List ℕ → List ℕ → Map → Type 0
  Reads m key value r =
      (other : List ℕ)
      → Map.map_get hash_of r other
        ≡ (if hash_of other == hash_of key then some value else Map.map_get hash_of m other)

  get-find :
      (m : Map) (key : List ℕ)
      → Map.map_get hash_of m key ≡ value_of (find (hash_of key) (m (bucket_of hash_of key)))
  unfolding Map.map_get
  get-find m key = ground arith

  -- The table with a node in front of the key's chain.
  abbrev pub pushed : Map → List ℕ → List ℕ → Map
  pushed m key value =
      update m (bucket_of hash_of key) (new_node hash_of key value ∷ m (bucket_of hash_of key))

  pushed-Reads : (m : Map) (key value : List ℕ) → Reads m key value (pushed m key value)
  unfolding Map.map_get find
  pushed-Reads m key value other = ground arith

  pushed-IsWellFormed :
      (m : Map) (key value : List ℕ)
      → IsWellFormed m
      → find (hash_of key) (m (bucket_of hash_of key)) ≡ none
      → IsWellFormed (pushed m key value)
  pushed-IsWellFormed m key value wf e b = ground (arith, wf b, wf (bucket_of hash_of key))

  overwritten-Reads :
      (m : Map) (key value : List ℕ) (node : Node)
      → find (hash_of key) (m (bucket_of hash_of key)) ≡ some node
      → Reads m key value (
          update m
            (bucket_of hash_of key)
            (Map.overwrite (hash_of key) value (m (bucket_of hash_of key))))
  unfolding Map.map_get
  overwritten-Reads m key value node e other =
      ground (arith, find-overwrite (hash_of key) (hash_of other) value (m (bucket_of hash_of key)))

  -- map_set on a well-formed table: a new hash gets the value and `true` is returned; if the hash is
  -- there already, nothing changes and `false` is returned. The table stays well-formed.
  pub map_set_correct :
      (m : Map) (key value : List ℕ)
      → IsWellFormed m
      → Returns
          (λ r.
            IsWellFormed r.0
            × (((r.1 ≡ true) × (Map.map_get hash_of m key ≡ none) × Reads m key value r.0)
                ⊎ ((r.1 ≡ false) × (Map.map_get hash_of m key ≢ none) × (r.0 ≡ m))))
          (Map.map_set hash_of 0 m key value)
  unfolding Map.map_set
  map_set_correct m key value wf =
      elim (Option-cases (find (hash_of key) (m (bucket_of hash_of key)))) [
        | inl e ↦
            let absent : Map.map_get hash_of m key ≡ none = cc (get-find m key) in
            rw e (
              (pushed m key value, true),
              refl,
              (pushed-IsWellFormed m key value wf e, inl (refl, absent, pushed-Reads m key value)),
            )
        | inr (node, e) ↦
            let present : Map.map_get hash_of m key ≢ none =
              (λ z. ground (arith, get-find m key)) in
            rw e ((m, false), refl, (wf, inr (refl, present, refl)))
      ]

  -- map_upsert of a value that is not empty, on a well-formed table and with a lock node that
  -- happens to be zero (the code does not initialize it), returns: the key's hash has the value,
  -- whether it was there or not, nothing else changes, and the table stays well-formed.
  pub map_upsert_correct :
      (m : Map) (key value : List ℕ)
      → IsWellFormed m
      → 0 < length value
      → Returns (λ r. IsWellFormed r × Reads m key value r) (Map.map_upsert hash_of 0 m key value)
  unfolding Map.map_upsert
  map_upsert_correct m key value wf some_bytes =
      elim (Option-cases (find (hash_of key) (m (bucket_of hash_of key)))) [
        | inl e ↦ rw e (
          pushed m key value,
          refl,
          (pushed-IsWellFormed m key value wf e, pushed-Reads m key value),
        )
        | inr (node, e) ↦ (
          update m (bucket_of hash_of key)
              (Map.overwrite (hash_of key) value (m (bucket_of hash_of key))),
          ground (arith, e, some_bytes),
          (
            λ b. ground (
              arith,
              wf b,
              Chained-overwrite (bucket_of hash_of key) (hash_of key) value
                  (m (bucket_of hash_of key)) (wf (bucket_of hash_of key)),
            ),
            overwritten-Reads m key value node e,
          ),
        )
      ]
