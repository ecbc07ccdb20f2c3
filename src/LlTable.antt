-- ===== src/LlTable.antt =====
-- The table from miniruns to their keys of src/ll_table.c.
pub mod Lookup
use ski_rental_adaptive_qf.Prelude.{
  ℕ, zero, suc, ◌+◌, ◌%◌, Option, none, some, List, [], ◌∷◌, update, leb, ◌==◌, if◌then◌else◌,
  Outcome, done, abort, spin, ◌>>=◌, ◌>>◌,
}
use ski_rental_adaptive_qf.Hash.{murmur_hash_64a}

-- `ll_list`, without its link: a family and its keys in the order of their ranks.
pub record Family : Type 0 where
  pub family : ℕ
  pub keys : List ℕ

-- `ll_table`. A bucket is the chain of its families.
pub record LlTable : Type 0 where
  pub buckets : ℕ → List Family
  pub seed : ℕ
  pub size : ℕ
  pub num_keys : ℕ
  pub num_families : ℕ

-- `seed` is what rand() returned.
unfoldable pub ll_table_init : ℕ → ℕ → LlTable
ll_table_init size seed = record {
  buckets = λ i. [];
  seed = seed;
  size = size;
  num_keys = 0;
  num_families = 0;
}

unfoldable pub ll_index : LlTable → ℕ → ℕ
ll_index table family = murmur_hash_64a (family ∷ []) [] 8 table.seed % table.size

-- What malloc left in a new family: its head read as a list of keys, its next as a chain of families.
pub record Uninitialised : Type 0 where
  pub keys : List ℕ
  pub next : List Family

-- The new key goes to its rank. A walk through a null pointer is `abort`.
unfoldable pub insert_at : ℕ → ℕ → List ℕ → Outcome (List ℕ)
insert_at zero key keys = done (key ∷ keys)
insert_at (suc rank) key [] = abort
insert_at (suc rank) key (k ∷ keys) = insert_at rank key keys >>= λ keys'. done (k ∷ keys')

-- Into a chain. The keys of a new family are not initialised, and at the end of the chain its link
-- is not either.
unfoldable pub insert_behind : Uninitialised → ℕ → ℕ → ℕ → List Family → Outcome (List Family × ℕ)
insert_behind junk family rank key [] = insert_at rank key junk.keys >>= λ keys.
    done (record { family = family; keys = keys } ∷ junk.next, 1)
insert_behind junk family rank key (f ∷ chain) =
    let behind = insert_behind junk family rank key chain in
    if leb family f.family
    then if f.family == family
      then (insert_at rank key f.keys >>= λ keys. done (record f { keys = keys } ∷ chain, 0))
      else (insert_at rank key junk.keys >>= λ keys.
          done (record { family = family; keys = keys } ∷ f ∷ chain, 1))
    else behind >>= λ (chain', n). done (f ∷ chain', n)

-- Into a bucket: a family that is its first counts as no new one.
unfoldable pub insert_in_bucket :
    Uninitialised → ℕ → ℕ → ℕ → List Family → Outcome (List Family × ℕ)
insert_in_bucket junk family rank key [] =
    insert_at rank key [] >>= λ keys. done (record { family = family; keys = keys } ∷ [], 0)
insert_in_bucket junk family rank key (f ∷ chain) = insert_behind junk family rank key (f ∷ chain)

unfoldable pub ll_table_insert : Uninitialised → LlTable → ℕ → ℕ → ℕ → Outcome LlTable
ll_table_insert junk table family rank key = do
  (chain, added) ← insert_in_bucket junk family rank key (table.buckets (ll_index table family))
  done (record table {
    buckets = update table.buckets (ll_index table family) chain;
    num_keys = table.num_keys + 1;
    num_families = table.num_families + added;
  })

unfoldable pub key_at : ℕ → List ℕ → Outcome ℕ
key_at rank [] = abort
key_at zero (k ∷ keys) = done k
key_at (suc rank) (k ∷ keys) = key_at rank keys

-- The loop of ll_table_query does not advance: at a first family below the one sought it stays.
unfoldable pub query_bucket : ℕ → ℕ → List Family → Outcome (Option ℕ)
query_bucket family rank [] = done none
query_bucket family rank (f ∷ chain) =
    if leb family f.family
    then if f.family == family then (key_at rank f.keys >>= λ key. done (some key)) else done none
    else spin

unfoldable pub ll_table_query : LlTable → ℕ → ℕ → Outcome (Option ℕ)
ll_table_query table family rank = query_bucket family rank (table.buckets (ll_index table family))
