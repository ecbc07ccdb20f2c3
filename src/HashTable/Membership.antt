-- ===== src/HashTable/Membership.antt =====
-- hash_table_insert and hash_table_query of src/hash_table.c, as operations on a set of keys.
use ski_rental_adaptive_qf.Prelude.{
  ℕ, ◌-◌, ◌≡◌, refl, ◌≢◌, ◌||◌, List, [], ◌∷◌, ◌++◌, arith, ℕ_discrete, ◌==◌, if◌then◌else◌,
}
use ski_rental_adaptive_qf.HashTable.{
  HtNode, nonzero_key, chain_has, node_insert, node_query, ht_index, hash_table_insert,
  hash_table_query,
}

chain_has-append :
    (key new value : ℕ) (next : List ℕ)
    → chain_has key value (next ++ new ∷ []) ≡ (chain_has key value next || (new == key))
unfolding chain_has
chain_has-append key new value [] = refl
chain_has-append key new value (v ∷ next) = ground (arith, chain_has-append key new v next)

-- An empty bucket has no links.
abbrev pub IsWellFormed : (ℕ → HtNode) → Type 0
IsWellFormed ht = (i : ℕ) → (ht i).value ≡ 0 → (ht i).next ≡ []

node_query-node_insert :
    (ptr : HtNode) (key other : ℕ)
    → (ptr.value ≡ 0 → ptr.next ≡ [])
    → key ≢ 0
    → (node_query (node_insert ptr key).1 other
        ≡ (if key == other then 1 else node_query ptr other))
      × ((node_insert ptr key).0 ≡ 1 - node_query ptr key)
unfolding node_insert node_query chain_has
node_query-node_insert ptr key other wf h =
    let l = chain_has-append other key ptr.value ptr.next in (ground arith, ground arith)

nonzero_key-ne : (key : ℕ) → nonzero_key key ≢ 0
nonzero_key-ne key = ground arith

-- An insertion keeps the table well formed.
pub hash_table_insert-IsWellFormed :
    (ht : ℕ → HtNode) (ht_len key : ℕ)
    → IsWellFormed ht
    → IsWellFormed (hash_table_insert ht ht_len key).1
unfolding hash_table_insert node_insert chain_has
hash_table_insert-IsWellFormed ht ht_len key wf i e =
    ground (arith, wf i, nonzero_key-ne key, wf (ht_index ht_len key))

-- After an insertion of a key the query answers 1 for it, and for every other key what it did before;
-- keys 0 and 1 are one key. The insertion returns 0 if the query answered 1 before, and 1 if it
-- answered 0.
pub hash_table_query-insert :
    (ht : ℕ → HtNode) (ht_len key other : ℕ)
    → IsWellFormed ht
    → (hash_table_query (hash_table_insert ht ht_len key).1 ht_len other
        ≡ (if nonzero_key key == nonzero_key other then 1 else hash_table_query ht ht_len other))
      × ((hash_table_insert ht ht_len key).0 ≡ 1 - hash_table_query ht ht_len key)
unfolding hash_table_insert hash_table_query
hash_table_query-insert ht ht_len key other wf =
    let l =
      node_query-node_insert (ht (ht_index ht_len key)) (nonzero_key key) (nonzero_key other)
        (wf (ht_index ht_len key)) (nonzero_key-ne key) in
    elim (ℕ_discrete (nonzero_key key) (nonzero_key other)) [
      | yes same ↦
          let home : ht_index ht_len key ≡ ht_index ht_len other = rw same in
          (ground arith, ground arith)
      | no diff ↦ (ground arith, ground arith)
    ]
