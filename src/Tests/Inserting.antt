-- ===== src/Tests/Inserting.antt =====
-- Insertion under locks, into an empty filter.
use ski_rental_adaptive_qf.Prelude.{◌+◌, ◌*◌, ◌≡◌, refl, false, arith, done}
use ski_rental_adaptive_qf.Qf.Insert.Existing.{insert-existing}
use ski_rental_adaptive_qf.Qf.SlotInfo.{SlotInfo, get_slot_info}
use ski_rental_adaptive_qf.Qf.Bits.{get_slot}
use ski_rental_adaptive_qf.Qf.Query.{hash_remainder, fingerprint_bits}
use ski_rental_adaptive_qf.Hash.{low_bits}
use ski_rental_adaptive_qf.Row.{field}
use ski_rental_adaptive_qf.Qf.Insert.LlTable.{InsertResult, insert_using_ll_table}
use ski_rental_adaptive_qf.Qf.Insert.LlLocks.{insert_using_ll_table-locks}
use ski_rental_adaptive_qf.Qf.{Qf}
use ski_rental_adaptive_qf.Qf.Adapt.{value}
use ski_rental_adaptive_qf.Qf.Insert.{Outputs, insert}
use ski_rental_adaptive_qf.Qf.Insert.Locks.{insert-locks}
use ski_rental_adaptive_qf.Word.{count_ones}
use ski_rental_adaptive_qf.Tests.Filters.{
  empty_qf, one_item, plain, try_lock, no_outputs, state_or_empty,
}

abbrev inserted : Qf
inserted = state_or_empty (insert empty_qf 0x1235 3 try_lock no_outputs)

abbrev reported : Outputs
reported = record { ret_index = 0; ret_hash = 0x235; ret_hash_len = 10 }

insert-locks_example : inserted.locks ≡ empty_qf.locks
unfolding insert count_ones
insert-locks_example =
    insert-locks empty_qf 0x1235 3 try_lock no_outputs {ret = value 1} {out' = reported}
      {qf' = inserted} refl

abbrev request : InsertResult
request = record { hash = 0x1235; minirun_id = 0x235; minirun_rank = 0; minirun_existed = false }

abbrev inserted_for_table : Qf
inserted_for_table = state_or_empty (insert_using_ll_table empty_qf request 1 try_lock)

insert_using_ll_table-locks_example : inserted_for_table.locks ≡ empty_qf.locks
unfolding insert_using_ll_table count_ones
insert_using_ll_table-locks_example =
    insert_using_ll_table-locks empty_qf request 1 try_lock {ret = value 0} {result' = request}
      {qf' = inserted_for_table} refl

abbrev seen : Outputs
seen = record { ret_index = 35; ret_hash = 0x235; ret_hash_len = 10 }

insert-existing_example :
    (one_item ≡ one_item)
    × (get_slot one_item seen.ret_index ≡ done (hash_remainder one_item 0x1235))
    × ((info : SlotInfo) × (get_slot_info one_item seen.ret_index ≡ done info)
        × (seen.ret_hash_len ≡ fingerprint_bits one_item + one_item.bits_per_slot * info.ext_slots))
    × (seen.ret_hash ≡ low_bits 0x1235 seen.ret_hash_len)
unfolding insert count_ones field get_slot_info
insert-existing_example =
    insert-existing one_item 0x1235 1 plain no_outputs {out' = seen} {qf' = one_item} refl
      (omega arith) refl
