-- ===== src/Tests/Adapting.antt =====
-- Adaptation and the queries, on a filter with one item.
use ski_rental_adaptive_qf.Prelude.{
  ℕ, suc, ◌+◌, ◌*◌, ◌<◌, ◌≡◌, refl, ◌≢◌, ◌⊎◌, true, arith, done, abort, spin,
}
use ski_rental_adaptive_qf.Hash.{low_bits}
use ski_rental_adaptive_qf.Qf.{hash_key}
use ski_rental_adaptive_qf.Qf.Bits.{is_occupied, get_slot}
use ski_rental_adaptive_qf.Qf.SlotInfo.{SlotInfo, get_slot_info}
use ski_rental_adaptive_qf.Qf.Query.{
  hash_remainder, hash_bucket_index, fingerprint_bits, query_start, Found, qf_query,
  qf_query_using_ll_table, qf_query_using_ll_table_with_ext_len,
}
use ski_rental_adaptive_qf.Qf.Query.Counts.{qf_get_count_using_ll_table_with_index}
use ski_rental_adaptive_qf.Qf.Query.Agree.{
  map_done, rank_of, is_found, rank_if_found, byte_rank, ranks_agree,
}
use ski_rental_adaptive_qf.Qf.Query.Sound.{qf_query-found}
use ski_rental_adaptive_qf.Qf.Query.Ends.{qf_query-ends}
use ski_rental_adaptive_qf.Qf.Adapt.{Adapted, value, err_no_space, adapt, adapt_loop}
use ski_rental_adaptive_qf.Qf.Adapt.Separate.{adapt-separates}
use ski_rental_adaptive_qf.Qf.Adapt.Fuel.{adapt_loop-fuel}
use ski_rental_adaptive_qf.Word.{count_ones}
use ski_rental_adaptive_qf.Row.{field}
use ski_rental_adaptive_qf.Tests.Filters.{one_item, plain}

abbrev not_adapted : Adapted
not_adapted = record { ret = err_no_space; ret_hash = 0; qf = one_item }

abbrev adapted : Adapted
adapted = elim (adapt one_item 35 0x23 0x1235 0x5635) [
  | done a ↦ a
  | abort ↦ not_adapted
  | spin ↦ not_adapted
]

abbrev info : SlotInfo
info = record { ext = 0; ext_slots = 0; count = 1; count_slots = 0 }

adapt-separates_example :
    (adapted.ret ≡ err_no_space)
    ⊎ ((length : ℕ) × (adapted.ret ≡ value length)
        × (one_item.bits_per_slot * info.ext_slots + fingerprint_bits one_item < length)
        × (adapted.ret_hash ≡ low_bits 0x1235 length)
        × (low_bits 0x1235 length ≢ low_bits 0x5635 length))
unfolding adapt get_slot_info count_ones field
adapt-separates_example =
    adapt-separates one_item 35 0x23 0x1235 0x5635 {info = info} {a = adapted} (omega arith)
      (omega arith) (omega arith) (omega arith) refl refl

ranks_agree_example :
    (map_done rank_of (qf_query_using_ll_table_with_ext_len one_item 0x1235 9 plain)
      ≡ map_done (λ o. o) (qf_query_using_ll_table one_item 0x1235 plain))
    × (map_done is_found (qf_query_using_ll_table one_item 0x1235 plain)
        ≡ map_done is_found (qf_query one_item 0x1235 plain))
    × (map_done rank_if_found (qf_get_count_using_ll_table_with_index one_item 0x1235 7 plain)
        ≡ map_done byte_rank (qf_query_using_ll_table one_item 0x1235 plain))
ranks_agree_example = ranks_agree one_item 0x1235 7 9 plain

adapt_loop-fuel_example :
    adapt_loop (suc (60 + 30)) one_item 35 0x23 0x8d 0x2b2 1 10 0x235 0
    ≡ adapt_loop (suc 60) one_item 35 0x23 0x8d 0x2b2 1 10 0x235 0
adapt_loop-fuel_example =
    adapt_loop-fuel 60 30 one_item 35 0x23 0x8d 0x2b2 1 10 0x235 0 (omega arith) (omega arith)

abbrev found : Found
found = record { count = 1; ret_index = 35; ret_hash = 0x235; ret_hash_len = 10 }

qf_query-found_example :
    (is_occupied one_item (hash_bucket_index one_item (hash_key one_item 0x1235 plain)) ≡ true)
    × (get_slot one_item found.ret_index
        ≡ done (hash_remainder one_item (hash_key one_item 0x1235 plain)))
    × ((info : SlotInfo) × (get_slot_info one_item found.ret_index ≡ done info)
        × (found.count ≡ info.count)
        × (found.ret_hash_len
            ≡ fingerprint_bits one_item + one_item.bits_per_slot * info.ext_slots))
    × (found.ret_hash ≡ low_bits (hash_key one_item 0x1235 plain) found.ret_hash_len)
unfolding qf_query hash_key get_slot_info count_ones field
qf_query-found_example = qf_query-found one_item 0x1235 plain {f = found} (omega arith) refl

qf_query-ends_example : qf_query one_item 0x1235 plain ≢ spin
unfolding query_start hash_key count_ones
qf_query-ends_example =
    qf_query-ends one_item 0x1235 plain {start = 35} (omega arith, λ i h. refl) refl
