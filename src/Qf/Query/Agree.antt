-- ===== src/Qf/Query/Agree.antt =====
-- How the five queries of src/gqf.c compare: qf_query and those for the key table.
use ski_rental_adaptive_qf.Prelude.{
  ℕ, zero, suc, ◌+◌, ◌%◌, ◌≡◌, refl, ◌∙◌, inl, inr, Bool, true, false, Option, none, some, arith,
  Bool-cases, Outcome, done, abort, spin, ◌>>=◌,
}
use ski_rental_adaptive_qf.Qf.{Flags, Qf, hash_key, rounds}
use ski_rental_adaptive_qf.Qf.Bits.{is_occupied}
use ski_rental_adaptive_qf.Qf.Query.{
  hash_bucket_index, query_start, Found, query_loop, qf_query, rank_loop, qf_query_using_ll_table,
  ext_len_loop, qf_query_using_ll_table_with_ext_len,
}
use ski_rental_adaptive_qf.Qf.Query.Counts.{
  count_index_loop, qf_get_count_using_ll_table_with_index, count_loop, qf_get_count_using_ll_table,
}

-- What the count query reports of an item that qf_query found: its count and its slot.
abbrev pub count_and_index : Option Found → Option (ℕ × ℕ)
count_and_index none = none
count_and_index (some f) = some (f.count, f.ret_index)

-- A value of a run, under a function.
abbrev pub map_done {ℓ κ} : {A : Type ℓ} {B : Type κ} → (A → B) → Outcome A → Outcome B
map_done f (done a) = done (f a)
map_done f abort = abort
map_done f spin = spin

abbrev pub first : Option (ℕ × ℕ) × ℕ → Option (ℕ × ℕ)
first p = p.0

count_index_loop-query :
    (fuel : ℕ) (qf : Qf) (hash rank i : ℕ)
    → map_done first (count_index_loop fuel qf hash rank i)
      ≡ map_done count_and_index (query_loop fuel qf hash i)
unfolding count_index_loop query_loop
count_index_loop-query zero qf hash rank i = refl
count_index_loop-query (suc fuel) qf hash rank i =
    let ih = count_index_loop-query fuel qf hash in grind (arith, ih)

-- The count that qf_query returns: 0 where it finds nothing.
abbrev pub query_count : Option Found → ℕ
query_count none = 0
query_count (some f) = f.count

abbrev pub is_found {ℓ} : {A : Type ℓ} → Option A → Bool
is_found none = false
is_found (some a) = true

abbrev pub left : ℕ × ℕ → ℕ
left p = p.0

count_loop-query :
    (fuel : ℕ) (qf : Qf) (hash rank i : ℕ)
    → map_done left (count_loop fuel qf hash rank i)
      ≡ map_done query_count (query_loop fuel qf hash i)
unfolding count_loop query_loop
count_loop-query zero qf hash rank i = refl
count_loop-query (suc fuel) qf hash rank i =
    let ih = count_loop-query fuel qf hash in grind (arith, ih)

rank_loop-query :
    (fuel : ℕ) (qf : Qf) (hash rank i : ℕ)
    → map_done is_found (rank_loop fuel qf hash rank i)
      ≡ map_done is_found (query_loop fuel qf hash i)
unfolding rank_loop query_loop
rank_loop-query zero qf hash rank i = refl
rank_loop-query (suc fuel) qf hash rank i =
    let ih = rank_loop-query fuel qf hash in grind (arith, ih)

abbrev pub rank_of : Option ℕ × ℕ → Option ℕ
rank_of p = p.0

ext_len_loop-rank :
    (fuel : ℕ) (qf : Qf) (hash len rank i : ℕ)
    → map_done rank_of (ext_len_loop fuel qf hash len rank i) ≡ rank_loop fuel qf hash rank i
unfolding ext_len_loop rank_loop
ext_len_loop-rank zero qf hash len rank i = refl
ext_len_loop-rank (suc fuel) qf hash len rank i =
    let ih = ext_len_loop-rank fuel qf hash in grind (arith, ih)

-- The rank that the count query returns with an item, a uint8_t, and that of the rank query.
abbrev pub byte_rank : Option ℕ → Option ℕ
byte_rank none = none
byte_rank (some r) = some (r % 256)

abbrev pub rank_if_found : Option (ℕ × ℕ) × ℕ → Option ℕ
rank_if_found (none, r) = none
rank_if_found (some _, r) = some r

count_index_loop-rank :
    (fuel : ℕ) (qf : Qf) (hash rank byte i : ℕ)
    → byte ≡ rank % 256
    → map_done rank_if_found (count_index_loop fuel qf hash byte i)
      ≡ map_done byte_rank (rank_loop fuel qf hash rank i)
unfolding count_index_loop rank_loop
count_index_loop-rank zero qf hash rank byte i e = refl
count_index_loop-rank (suc fuel) qf hash rank byte i e =
    let e' : (byte + 1) % 256 ≡ (rank + 1) % 256 = omega arith in
    let ih = count_index_loop-rank fuel qf hash in grind (arith, ih)

-- Two ways on from one run agree if they agree on its value.
map_done-bind {ℓ} :
    {A B C D : Type ℓ} (m : Outcome A) (f : A → Outcome B) (g : A → Outcome C) (u : B → D)
    (v : C → D)
    → ((a : A) → map_done u (f a) ≡ map_done v (g a))
    → map_done u (m >>= f) ≡ map_done v (m >>= g)
map_done-bind (done a) f g u v h = h a
map_done-bind abort f g u v h = refl
map_done-bind spin f g u v h = refl

pub counts_agree :
    (qf : Qf) (key r : ℕ) (flags : Flags)
    → (map_done first (qf_get_count_using_ll_table_with_index qf key r flags)
        ≡ map_done count_and_index (qf_query qf key flags))
      × (map_done left (qf_get_count_using_ll_table qf key r flags)
          ≡ map_done query_count (qf_query qf key flags))
unfolding qf_get_count_using_ll_table_with_index qf_get_count_using_ll_table qf_query
counts_agree qf key r flags = elim (Bool-cases (is_occupied qf (hash_bucket_index qf hash))) [
  | inl taken ↦ rw taken (
    map_done-bind start (count_index_loop fuel qf hash 0) (query_loop fuel qf hash) first
        count_and_index (count_index_loop-query fuel qf hash 0),
    map_done-bind start (count_loop fuel qf hash 0) (query_loop fuel qf hash) left query_count
        (count_loop-query fuel qf hash 0),
  )
  | inr free ↦ rw free (refl, refl)
]
  where
    hash : ℕ
    hash = hash_key qf key flags

    fuel : ℕ
    fuel = rounds qf

    start : Outcome ℕ
    start = query_start qf (hash_bucket_index qf hash)

-- Both rank queries return the same rank, and one exactly if qf_query finds the key. The count query
-- with an index returns that rank modulo 256 with each item that it finds.
pub ranks_agree :
    (qf : Qf) (key r len : ℕ) (flags : Flags)
    → (map_done rank_of (qf_query_using_ll_table_with_ext_len qf key len flags)
        ≡ map_done (λ o. o) (qf_query_using_ll_table qf key flags))
      × (map_done is_found (qf_query_using_ll_table qf key flags)
          ≡ map_done is_found (qf_query qf key flags))
      × (map_done rank_if_found (qf_get_count_using_ll_table_with_index qf key r flags)
          ≡ map_done byte_rank (qf_query_using_ll_table qf key flags))
unfolding qf_get_count_using_ll_table_with_index qf_query_using_ll_table_with_ext_len
    qf_query_using_ll_table qf_query
ranks_agree qf key r len flags = elim (Bool-cases (is_occupied qf (hash_bucket_index qf hash))) [
  | inl taken ↦ rw taken (
    map_done-bind start (ext_len_loop fuel qf hash len 0) (rank_loop fuel qf hash 0) rank_of
        (λ o. o) (λ s. ext_len_loop-rank fuel qf hash len 0 s ∙ same (rank_loop fuel qf hash 0 s)),
    map_done-bind start (rank_loop fuel qf hash 0) (query_loop fuel qf hash) is_found is_found
        (rank_loop-query fuel qf hash 0),
    map_done-bind start (count_index_loop fuel qf hash 0) (rank_loop fuel qf hash 0) rank_if_found
        byte_rank (λ s. count_index_loop-rank fuel qf hash 0 0 s refl),
  )
  | inr free ↦ rw free (refl, refl, refl)
]
  where
    hash : ℕ
    hash = hash_key qf key flags

    fuel : ℕ
    fuel = rounds qf

    start : Outcome ℕ
    start = query_start qf (hash_bucket_index qf hash)

    same : (m : Outcome (Option ℕ)) → m ≡ map_done (λ o. o) m
    same (done o) = refl
    same abort = refl
    same spin = refl
