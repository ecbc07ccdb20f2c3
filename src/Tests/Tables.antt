-- ===== src/Tests/Tables.antt =====
-- The theorems on the tables, at small inputs.
use ski_rental_adaptive_qf.Prelude.{
  ℕ, ◌-◌, ◌≡◌, refl, some, [], ◌∷◌, arith, ◌==◌, if◌then◌else◌, Outcome, done, abort, spin,
}
use ski_rental_adaptive_qf.LlTable.{
  LlTable, Uninitialised, insert_at, insert_behind, insert_in_bucket, ll_table_insert,
  ll_table_query,
}
use ski_rental_adaptive_qf.LlTable.Lookup.{ll_table_query-insert, ll_table_query-insert-spin}
use ski_rental_adaptive_qf.HashTable.{HtNode, nonzero_key, hash_table_insert, hash_table_query}
use ski_rental_adaptive_qf.HashTable.Membership.{
  IsWellFormed, hash_table_insert-IsWellFormed, hash_table_query-insert,
}

abbrev zeroed : Uninitialised
zeroed = record { keys = []; next = [] }

-- One bucket, so that all families meet.
abbrev one_bucket : LlTable
one_bucket = record {
  buckets = λ i. record { family = 5; keys = 50 ∷ [] } ∷ [];
  seed = 1;
  size = 1;
  num_keys = 1;
  num_families = 0;
}

abbrev table_or : LlTable → Outcome LlTable → LlTable
table_or table (done t) = t
table_or table abort = table
table_or table spin = table

ll_table_query-insert_example :
    ll_table_query (table_or one_bucket (ll_table_insert zeroed one_bucket 5 1 77)) 5 1
    ≡ done (some 77)
unfolding ll_table_insert insert_in_bucket insert_behind insert_at
ll_table_query-insert_example =
    ll_table_query-insert zeroed one_bucket 5 1 77
      {table' = table_or one_bucket (ll_table_insert zeroed one_bucket 5 1 77)}
      (λ h. omega (arith, h)) refl

ll_table_query-insert-spin_example :
    ll_table_query (table_or one_bucket (ll_table_insert zeroed one_bucket 9 0 77)) 9 0 ≡ spin
unfolding ll_table_insert insert_in_bucket insert_behind insert_at
ll_table_query-insert-spin_example =
    ll_table_query-insert-spin zeroed one_bucket 9 0 77 0
      {table' = table_or one_bucket (ll_table_insert zeroed one_bucket 9 0 77)} (omega arith) refl

abbrev no_nodes : ℕ → HtNode
no_nodes i = record { value = 0; next = [] }

hash_table_insert-IsWellFormed_example : IsWellFormed (hash_table_insert no_nodes 16 42).1
hash_table_insert-IsWellFormed_example = hash_table_insert-IsWellFormed no_nodes 16 42 (λ i e. refl)

hash_table_query-insert_example :
    (hash_table_query (hash_table_insert no_nodes 16 42).1 16 0
      ≡ (if nonzero_key 42 == nonzero_key 0 then 1 else hash_table_query no_nodes 16 0))
    × ((hash_table_insert no_nodes 16 42).0 ≡ 1 - hash_table_query no_nodes 16 42)
hash_table_query-insert_example = hash_table_query-insert no_nodes 16 42 0 (λ i e. refl)
