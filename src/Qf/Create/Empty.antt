-- ===== src/Qf/Create/Empty.antt =====
-- A filter that qf_reset (src/gqf.c) has emptied.
use ski_rental_adaptive_qf.Prelude.{
  ℕ, ◌*◌, ◌^◌, ◌≤◌, ◌≡◌, refl, ap, false, not, none, arith, ltb, lt→ltb, done, if-true,
}
use ski_rental_adaptive_qf.Qf.{Flags, Qf, hash_key}
use ski_rental_adaptive_qf.Hash.{shr}
use ski_rental_adaptive_qf.Qf.Create.{qf_reset}
use ski_rental_adaptive_qf.Qf.Query.Counts.{
  qf_get_count_using_ll_table_with_index, qf_get_count_using_ll_table,
}
use ski_rental_adaptive_qf.Qf.Bits.{is_occupied}
use ski_rental_adaptive_qf.Arith.{low_bits-lt}
use ski_rental_adaptive_qf.Qf.Query.{hash_bucket_index, qf_query, qf_query_using_ll_table}

-- The bucket of a key is free.
abbrev pub IsFree : Qf → ℕ → Flags → Type 0
IsFree qf key flags = is_occupied qf (hash_bucket_index qf (hash_key qf key flags)) ≡ false

module _ (qf : Qf) (key : ℕ) (flags : Flags) (free : IsFree qf key flags) where
  qf_query-free : qf_query qf key flags ≡ done none
  unfolding qf_query
  qf_query-free =
      if-true (not (is_occupied qf (hash_bucket_index qf (hash_key qf key flags)))) _ (ap not free)
        refl

  ranks-free : qf_query_using_ll_table qf key flags ≡ done none
  unfolding qf_query_using_ll_table
  ranks-free =
      if-true (not (is_occupied qf (hash_bucket_index qf (hash_key qf key flags)))) _ (ap not free)
        refl

  counts-free : (r : ℕ) → qf_get_count_using_ll_table qf key r flags ≡ done (0, r)
  unfolding qf_get_count_using_ll_table
  counts-free r =
      if-true (not (is_occupied qf (hash_bucket_index qf (hash_key qf key flags)))) _ (ap not free)
        refl

  counts_index-free :
      (r : ℕ) → qf_get_count_using_ll_table_with_index qf key r flags ≡ done (none, r)
  unfolding qf_get_count_using_ll_table_with_index
  counts_index-free r =
      if-true (not (is_occupied qf (hash_bucket_index qf (hash_key qf key flags)))) _ (ap not free)
        refl

qf_reset-IsFree :
    (qf : Qf) (key : ℕ) (flags : Flags)
    → 2 ^ qf.quotient_bits ≤ 64 * qf.nblocks
    → IsFree (qf_reset qf) key flags
unfolding qf_reset is_occupied hash_key
qf_reset-IsFree qf key flags blocks =
    let lt = low_bits-lt (shr (hash_key qf key flags) qf.bits_per_slot) qf.quotient_bits in
    if-true (ltb (hash_bucket_index qf (hash_key qf key flags)) (64 * qf.nblocks)) _
      (lt→ltb _ (64 * qf.nblocks) (omega arith)) refl

-- After qf_reset, qf_query, the rank query and both count queries find nothing for any key, if there
-- is a block for each bucket, and the numbers of elements and of slots in use are 0.
pub qf_reset-empty :
    (qf : Qf) (key r : ℕ) (flags : Flags)
    → 2 ^ qf.quotient_bits ≤ 64 * qf.nblocks
    → (qf_query (qf_reset qf) key flags ≡ done none)
      × (qf_query_using_ll_table (qf_reset qf) key flags ≡ done none)
      × (qf_get_count_using_ll_table (qf_reset qf) key r flags ≡ done (0, r))
      × (qf_get_count_using_ll_table_with_index (qf_reset qf) key r flags ≡ done (none, r))
      × ((qf_reset qf).nelts ≡ 0)
      × ((qf_reset qf).noccupied_slots ≡ 0)
unfolding qf_reset
qf_reset-empty qf key r flags blocks =
    let free = qf_reset-IsFree qf key flags blocks in
    (
      qf_query-free (qf_reset qf) key flags free,
      ranks-free (qf_reset qf) key flags free,
      counts-free (qf_reset qf) key flags free r,
      counts_index-free (qf_reset qf) key flags free r,
      refl,
      refl,
    )
