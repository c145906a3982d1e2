-- ===== src/Map/Tests.antt =====
-- Runs of the table, and its theorems at concrete ones (runtime/include/map.h).
use sledge_serverless_framew.Base.{
  ℕ, ◌≡◌, refl, List, [], ◌∷◌, fault, null_pointer, arith, update, Returns, length,
}
use sledge_serverless_framew.Map
use sledge_serverless_framew.Map.{Map, Node, find, bucket_of, jenkins_hash}
use sledge_serverless_framew.Map.View.{IsWellFormed, Reads, map_upsert_correct}
use sledge_serverless_framew.Map.Delete.{map_delete_empty}

abbrev empty : Map
empty b = []

empty-IsWellFormed : IsWellFormed empty
empty-IsWellFormed b = tt

-- The first byte, as a hash that is easy to follow.
abbrev first_byte : List ℕ → ℕ
first_byte [] = 0
first_byte (b ∷ bs) = b

abbrev node : ℕ → ℕ → Node
node hash value = record { key = hash ∷ []; value = value ∷ []; hash = hash }

-- One chain, of the hashes 5 and 5 + 7907.
abbrev chained : Map
chained = update empty 5 (node 5 50 ∷ node 7912 60 ∷ [])

chained-IsWellFormed : IsWellFormed chained
unfolding find
chained-IsWellFormed b = ground arith

map_upsert_correct_example :
    Returns
      (λ r. IsWellFormed r × Reads first_byte chained (7912 ∷ []) (9 ∷ []) r)
      (Map.map_upsert first_byte 0 chained (7912 ∷ []) (9 ∷ []))
unfolding length
map_upsert_correct_example =
    map_upsert_correct first_byte chained (7912 ∷ []) (9 ∷ []) chained-IsWellFormed (omega arith)

map_delete_empty_example : Map.map_delete jenkins_hash 0 empty (97 ∷ []) ≡ fault null_pointer
map_delete_empty_example = map_delete_empty jenkins_hash empty (97 ∷ []) refl

hash_of_a : jenkins_hash (97 ∷ []) ≡ 3392050242
unfolding jenkins_hash
hash_of_a = refl
