-- ===== src/Tests/Creating.antt =====
-- A filter of 64 slots for keys of 10 bits, made over memory that is not clear, and emptied.
use ski_rental_adaptive_qf.Prelude.{◌+◌, ◌*◌, ◌≤◌, ◌<◌, ◌≡◌, true, false, none, some, arith, done}
use ski_rental_adaptive_qf.Qf.{hash_invertible, Qf}
use ski_rental_adaptive_qf.Qf.Create.{Blocks, qf_malloc, qf_reset}
use ski_rental_adaptive_qf.Qf.Query.Counts.{
  qf_get_count_using_ll_table_with_index, qf_get_count_using_ll_table,
}
use ski_rental_adaptive_qf.Qf.Query.{qf_query, qf_query_using_ll_table}
use ski_rental_adaptive_qf.Qf.Create.Sizes.{qf_malloc-sizes}
use ski_rental_adaptive_qf.Qf.Create.Empty.{qf_reset-empty}
use ski_rental_adaptive_qf.Tests.Filters.{one_item, plain}

abbrev memory : Blocks
memory = record {
  offset = λ b. 7;
  occupieds = λ i. true;
  runends = λ i. true;
  extensions = λ i. false;
  remainders = λ i. true;
}

qf_malloc-sizes_example :
    (qf : Qf) × (qf_malloc (λ n. 80) 128 64 10 0 hash_invertible 0 memory ≡ done (some qf))
    × (qf.quotient_bits ≡ 6)
    × (qf.quotient_bits + qf.key_remainder_bits ≡ 10)
    × (qf.bits_per_slot ≡ qf.key_remainder_bits + 0)
    × (qf.nslots ≤ qf.xnslots)
    × (qf.xnslots ≤ 64 * qf.nblocks)
    × (64 * qf.nblocks < qf.xnslots + 64)
    × (qf.range ≡ 1024)
    × (qf.nelts + qf.ndistinct_elts + qf.noccupied_slots ≡ 0)
qf_malloc-sizes_example =
    qf_malloc-sizes (λ n. 80) 128 6 10 0 hash_invertible 0 memory (omega arith) (omega arith)
      (omega arith)

qf_reset-empty_example :
    (qf_query (qf_reset one_item) 0x1235 plain ≡ done none)
    × (qf_query_using_ll_table (qf_reset one_item) 0x1235 plain ≡ done none)
    × (qf_get_count_using_ll_table (qf_reset one_item) 0x1235 0 plain ≡ done (0, 0))
    × (qf_get_count_using_ll_table_with_index (qf_reset one_item) 0x1235 0 plain ≡ done (none, 0))
    × ((qf_reset one_item).nelts ≡ 0)
    × ((qf_reset one_item).noccupied_slots ≡ 0)
qf_reset-empty_example = qf_reset-empty one_item 0x1235 0 plain (omega arith)
