-- ===== src/HashTable.antt =====
-- The set of keys of src/hash_table.c. Of the node type, whose header is not in the repository, the
-- source uses a value and a link; a value of 0 marks a bucket as empty.
pub mod Membership
use ski_rental_adaptive_qf.Prelude.{
  ℕ, ◌+◌, ◌%◌, Bool, ◌||◌, List, [], ◌∷◌, ◌++◌, update, ◌==◌, if◌then◌else◌,
}
use ski_rental_adaptive_qf.Hash.{murmur_hash_64a}

-- A bucket: the value in the array, and those of the nodes linked behind it.
pub record HtNode : Type 0 where
  pub value : ℕ
  pub next : List ℕ

-- `_murmur_64` of an 8-byte key under HASH_SEED
unfoldable pub murmur_64 : ℕ → ℕ
murmur_64 key = murmur_hash_64a (key ∷ []) [] 8 26571997

-- `if (!key) key++;`
abbrev pub nonzero_key : ℕ → ℕ
nonzero_key key = if key == 0 then 1 else key

-- The loop over the chain, from a value with the links behind it.
unfoldable pub chain_has : ℕ → ℕ → List ℕ → Bool
chain_has key value [] = value == key
chain_has key value (v ∷ next) = (value == key) || chain_has key v next

-- What insert and query do in the key's bucket, which they reach through `ptr`.
unfoldable pub node_insert : HtNode → ℕ → ℕ × HtNode
unfolding chain_has
node_insert ptr key =
    if ptr.value == 0
    then (1, record ptr { value = key })
    else if chain_has key ptr.value ptr.next
    then (0, ptr)
    else (1, record ptr { next = ptr.next ++ key ∷ [] })

unfoldable pub node_query : HtNode → ℕ → ℕ
unfolding chain_has
node_query ptr key = if ptr.value == 0 then 0 else if chain_has key ptr.value ptr.next then 1 else 0

abbrev pub ht_index : ℕ → ℕ → ℕ
ht_index ht_len key = murmur_64 (nonzero_key key) % ht_len

unfoldable pub hash_table_insert : (ℕ → HtNode) → ℕ → ℕ → ℕ × (ℕ → HtNode)
hash_table_insert ht ht_len key =
    let (added, node) = node_insert (ht (ht_index ht_len key)) (nonzero_key key) in
    (added, update ht (ht_index ht_len key) node)

unfoldable pub hash_table_query : (ℕ → HtNode) → ℕ → ℕ → ℕ
hash_table_query ht ht_len key = node_query (ht (ht_index ht_len key)) (nonzero_key key)
