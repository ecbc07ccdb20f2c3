-- ===== src/LlTable/Lookup.antt =====
-- ll_table_query of src/ll_table.c after ll_table_insert.
use ski_rental_adaptive_qf.Prelude.{
  ℕ, zero, suc, ◌+◌, ◌<◌, ◌≡◌, some, List, [], ◌∷◌, arith, update, done, spin, ◌>>=◌, >>=-eq-done,
}
use ski_rental_adaptive_qf.LlTable.{
  Family, LlTable, Uninitialised, ll_index, insert_at, insert_behind, insert_in_bucket,
  ll_table_insert, key_at, query_bucket, ll_table_query,
}

-- An insertion at a rank up to the number of keys puts the key there and moves up those behind.
key_at-insert_at :
    (rank key : ℕ) (keys : List ℕ) {keys' : List ℕ}
    → insert_at rank key keys ≡ done keys'
    → key_at rank keys' ≡ done key
unfolding insert_at key_at
key_at-insert_at zero key keys h = ground arith
key_at-insert_at (suc rank) key [] h = cc
key_at-insert_at (suc rank) key (k ∷ keys) h =
    let (rest, e, f) = >>=-eq-done (insert_at rank key keys) (λ keys'. done (k ∷ keys')) h in
    let ih = key_at-insert_at rank key keys e in ground arith

-- The first family of the bucket, if it is below the one given.
abbrev pub StartsBelow : ℕ → List Family → Type 0
StartsBelow family [] = ⊥
StartsBelow family (f ∷ chain) = f.family < family

below_insert :
    (junk : Uninitialised) (family rank key : ℕ) (f : Family) (chain : List Family)
    {r : List Family × ℕ}
    → insert_in_bucket junk family rank key (f ∷ chain) ≡ done r
    → f.family < family
    → (rest : List Family) × (r.0 ≡ f ∷ rest)
unfolding insert_in_bucket insert_behind
below_insert junk family rank key f chain {r} h lt =
    let (a, e, g) =
      >>=-eq-done (insert_behind junk family rank key chain)
        (λ (c : List Family × ℕ). done (f ∷ c.0, c.1)) (behind h) in
    (a.0, ground arith)
  where
    behind :
        {r : List Family × ℕ}
        → insert_in_bucket junk family rank key (f ∷ chain) ≡ done r
        → (insert_behind junk family rank key chain >>= λ (c : List Family × ℕ).
            done (f ∷ c.0, c.1))
          ≡ done r
    behind h = ground arith

bucket_insert :
    (junk : Uninitialised) (family rank key : ℕ) (bucket : List Family) {r : List Family × ℕ}
    → insert_in_bucket junk family rank key bucket ≡ done r
    → ¬ (StartsBelow family bucket)
    → query_bucket family rank r.0 ≡ done (some key)
unfolding insert_in_bucket insert_behind query_bucket
bucket_insert junk family rank key [] h below = grind (arith, key_at-insert_at)
bucket_insert junk family rank key (f ∷ chain) h below = grind (arith, key_at-insert_at)

-- What an insertion leaves in the bucket of its family.
insert-bucket :
    (junk : Uninitialised) (table : LlTable) (family rank key : ℕ) {table' : LlTable}
    → ll_table_insert junk table family rank key ≡ done table'
    → (r : List Family × ℕ) × (insert_in_bucket junk family rank key
          (table.buckets (ll_index table family))
        ≡ done r)
      × (table'.buckets (ll_index table' family) ≡ r.0)
unfolding ll_table_insert ll_index
insert-bucket junk table family rank key h =
    let (r, e, g) =
      >>=-eq-done (insert_in_bucket junk family rank key (table.buckets (ll_index table family)))
        (λ (r : List Family × ℕ). done (record table {
          buckets = update table.buckets (ll_index table family) r.0;
          num_keys = table.num_keys + 1;
          num_families = table.num_families + r.1;
        }))
        h in
    (r, e, ground arith)

-- A key that was inserted is found at its rank, if the bucket does not start with a smaller family.
pub ll_table_query-insert :
    (junk : Uninitialised) (table : LlTable) (family rank key : ℕ) {table' : LlTable}
    → ¬ (StartsBelow family (table.buckets (ll_index table family)))
    → ll_table_insert junk table family rank key ≡ done table'
    → ll_table_query table' family rank ≡ done (some key)
unfolding ll_table_query
ll_table_query-insert junk table family rank key below h =
    let (r, e, g) = insert-bucket junk table family rank key h in
    rw g (bucket_insert junk family rank key (table.buckets (ll_index table family)) e below)

-- The query loop does not end for a family that was inserted behind a smaller one, whatever the rank.
pub ll_table_query-insert-spin :
    (junk : Uninitialised) (table : LlTable) (family rank key r : ℕ) {table' : LlTable}
    → StartsBelow family (table.buckets (ll_index table family))
    → ll_table_insert junk table family rank key ≡ done table'
    → ll_table_query table' family r ≡ spin
unfolding ll_table_query query_bucket
ll_table_query-insert-spin junk table family rank key r below h =
    let (c, e, g) = insert-bucket junk table family rank key h in
    rw g (stuck (table.buckets (ll_index table family)) e below)
  where
    stuck :
        (bucket : List Family) {c : List Family × ℕ}
        → insert_in_bucket junk family rank key bucket ≡ done c
        → StartsBelow family bucket
        → query_bucket family r c.0 ≡ spin
    stuck [] e below = elim below [ ]
    stuck (f ∷ chain) e below =
        let (rest, s) = below_insert junk family rank key f chain e below in
        rw (s, query_bucket) (ground arith)
