-- ===== src/Map.antt =====
-- runtime/include/map.h: the key-value store behind the scratch storage, a table of chains.
-- Keys and values are lists of bytes, and a length is the list's. An operation holds its bucket's
-- lock throughout, so the operations on a bucket follow one another; `time_locked` is the content of
-- the lock node on the operation's stack, which only map_get initializes. `xmalloc` succeeds, and
-- `realloc` does for a length that is not 0.
pub mod View
pub mod Delete
mod Tests
use Prim.Native.Nat.{bit_xor}
use sledge_serverless_framew.Base.{
  ℕ, ◌+◌, ◌*◌, ◌/◌, ◌%◌, ◌^◌, Bool, true, false, Option, none, some, List, [], ◌∷◌, Run, ok, fault,
  null_pointer, ◌>>=◌, ◌>>◌, assert, ◌==◌, ltb, length, if◌then◌else◌, update,
}

abbrev pub bucket_count : ℕ
bucket_count = 7907

-- A chain is the list of its nodes.
pub record Node : Type 0 where
  pub key : List ℕ
  pub value : List ℕ
  pub hash : ℕ

-- The chain of each bucket.
abbrev pub Map : Type 0
Map = ℕ → List Node

pub init : Map
init = λ b. []

abbrev u32 : ℕ → ℕ
u32 n = n % 2 ^ 32

-- One round of the `while` loop of jenkins_hash.
hash_byte : ℕ → ℕ → ℕ
hash_byte hash byte =
    let h₁ = u32 (hash + byte) in let h₂ = u32 (h₁ + u32 (h₁ * 2 ^ 10)) in bit_xor h₂ (h₂ / 2 ^ 6)

hash_bytes : ℕ → List ℕ → ℕ
hash_bytes hash [] = hash
hash_bytes hash (byte ∷ bytes) = hash_bytes (hash_byte hash byte) bytes

pub jenkins_hash : List ℕ → ℕ
unfolding hash_bytes hash_byte
jenkins_hash key =
    let h = hash_bytes 0 key in
    let h₁ = u32 (h + u32 (h * 2 ^ 3)) in
    let h₂ = bit_xor h₁ (h₁ / 2 ^ 11) in u32 (h₂ + u32 (h₂ * 2 ^ 15))

-- The `for` loop that looks for a hash.
pub find : ℕ → List Node → Option Node
find hash [] = none
find hash (node ∷ nodes) = if node.hash == hash then some node else find hash nodes

-- `lock_lock(&bucket->lock, &node)`
abbrev pub lock_lock : ℕ → Run (Unit {0})
lock_lock time_locked = assert (time_locked == 0)

-- The loop ends in its first round.
delete_second : List Node → List Node × Bool
delete_second [] = ([], false)
delete_second (node ∷ nodes) = (nodes, true)

-- The chain behind the delete, and `did_delete`.
pub delete_chain : ℕ → List Node → Run (List Node × Bool)
unfolding delete_second
delete_chain hash [] = fault null_pointer
delete_chain hash (prev ∷ nodes) =
    if prev.hash == hash
    then ok (nodes, true)
    else (let (rest, did_delete) = delete_second nodes in ok (prev ∷ rest, did_delete))

-- The node that is found keeps its key and gets the value.
pub overwrite : ℕ → List ℕ → List Node → List Node
overwrite hash value [] = []
overwrite hash value (node ∷ nodes) =
    if node.hash == hash
    then record node { value = value } ∷ nodes
    else node ∷ overwrite hash value nodes

-- The hash function is fixed by MAP_HASH; the operations are defined for any.
module _ (hash_of : List ℕ → ℕ) where
  abbrev pub bucket_of : List ℕ → ℕ
  bucket_of key = hash_of key % bucket_count

  -- The value, with its length.
  pub map_get : Map → List ℕ → Option (List ℕ)
  map_get m key = elim (find (hash_of key) (m (bucket_of key))) [
    | none ↦ none
    | some node ↦ some node.value
  ]

  abbrev pub new_node : List ℕ → List ℕ → Node
  new_node key value = record { key = key; value = value; hash = hash_of key }

  -- The second component is `did_set`.
  pub map_set : ℕ → Map → List ℕ → List ℕ → Run (Map × Bool)
  map_set time_locked m key value = do
    lock_lock time_locked
    elim (find (hash_of key) (m (bucket_of key))) [
      | some _ ↦ ok (m, false)
      | none ↦ ok (update m (bucket_of key) (new_node key value ∷ m (bucket_of key)), true)
    ]

  pub map_delete : ℕ → Map → List ℕ → Run (Map × Bool)
  map_delete time_locked m key = do
    lock_lock time_locked
    (nodes, did_delete) ← delete_chain (hash_of key) (m (bucket_of key))
    ok (update m (bucket_of key) nodes, did_delete)

  -- `realloc` of no bytes frees the value and gives NULL.
  pub map_upsert : ℕ → Map → List ℕ → List ℕ → Run Map
  map_upsert time_locked m key value = do
    lock_lock time_locked
    elim (find (hash_of key) (m (bucket_of key))) [
      | some _ ↦ (do
        assert (ltb 0 (length value))
        ok (update m (bucket_of key) (overwrite (hash_of key) value (m (bucket_of key)))))
      | none ↦ ok (update m (bucket_of key) (new_node key value ∷ m (bucket_of key)))
    ]
