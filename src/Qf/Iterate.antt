-- ===== src/Qf/Iterate.antt =====
-- The iterator of src/gqf.c: qf_iterator_from_position, qfi_get_hash, qfi_next and qfi_end.
pub mod Forward
pub mod Wraps
use ski_rental_adaptive_qf.Prelude.{
  ℕ, zero, suc, ◌+◌, ◌*◌, ◌/◌, ◌%◌, Bool, true, false, ◌&&◌, Option, none, some, ltb, leb, ◌==◌,
  if◌then◌else◌, Outcome, done, spin, ◌>>=◌, ◌>>◌, assert,
}
use ski_rental_adaptive_qf.Word.{bitrank, bitselect}
use ski_rental_adaptive_qf.Row.{word}
use ski_rental_adaptive_qf.Qf.{Qf, no_space, rounds}
use ski_rental_adaptive_qf.Qf.Bits.{is_runend, is_occupied, get_slot}
use ski_rental_adaptive_qf.Qf.Runs.{skip_extensions, run_start}
use ski_rental_adaptive_qf.Qf.SlotInfo.{SlotInfo, get_slot_info}

-- `QFi`, without the logging of clusters: the bucket of the run, and the slot.
pub record Qfi : Type 0 where
  pub run : ℕ
  pub current : ℕ

unfoldable pub qfi_end : Qf → Qfi → Bool
qfi_end qf qfi = leb qf.xnslots qfi.current

-- `bitselect(get_block(qf, block_index)->occupieds[0], rank)`. The loops read one block past the last
-- before they stop, whose bits are what the row holds there; a read further on is outside the table.
unfoldable pub select_occupied : Qf → ℕ → ℕ → Outcome ℕ
unfolding bitselect
select_occupied qf block_index rank =
    assert (leb block_index qf.nblocks) >> done (bitselect (word qf.occupieds block_index) rank)

-- `while (idx == 64 && block_index < nblocks) idx = bitselect(... ++block_index ..., 0);`
unfoldable pub next_occupied : ℕ → Qf → ℕ → ℕ → Outcome (ℕ × ℕ)
unfolding select_occupied
next_occupied zero qf block_index idx = spin
next_occupied (suc fuel) qf block_index idx = elim ((idx == 64) && ltb block_index qf.nblocks) [
  | true ↦ select_occupied qf (block_index + 1) 0 >>= λ found.
      next_occupied fuel qf (block_index + 1) found
  | false ↦ done (block_index, idx)
]

-- The bucket that qf_iterator_from_position starts at. As in the source, the block it first looks in
-- has the number of the slot, not that of the slot's block.
unfoldable pub first_run : Qf → ℕ → Outcome ℕ
unfolding select_occupied next_occupied is_occupied
first_run qf position =
    if is_occupied qf position
    then done position
    else select_occupied qf position 0 >>= λ idx.
        next_occupied (qf.nblocks + 1) qf position idx >>= λ (block_index, idx').
        done (block_index * 64 + idx')

-- `none` stands for QFI_INVALID. `qfi` is what the caller's memory holds.
unfoldable pub qf_iterator_from_position : Qf → Qfi → ℕ → Outcome (Option ℕ × Qfi)
unfolding first_run run_start
qf_iterator_from_position qf qfi position =
    if position == no_space then done (none, record qfi { current = no_space }) else do
      assert (ltb position qf.nslots)
      run ← first_run qf position
      start ← run_start qf run
      let current : ℕ = if ltb start run then run else start
      done (
        if leb qf.nslots current then none else some current,
        record { run = run; current = current },
      )

-- The remainder and the rest of the item; `none` and zeros at the end.
unfoldable pub qfi_get_hash : Qf → Qfi → Outcome (Option (ℕ × SlotInfo))
unfolding qfi_end get_slot_info get_slot
qfi_get_hash qf qfi =
    if qfi_end qf qfi
    then done none
    else get_slot_info qf qfi.current >>= λ info.
        get_slot qf qfi.current >>= λ rem. done (some (rem, info))

-- The part of qfi_next that looks for the next run.
unfoldable pub next_run : Qf → ℕ → ℕ → Outcome (Bool × Qfi)
unfolding select_occupied next_occupied bitrank
next_run qf run current = do
  let rank : ℕ = bitrank (word qf.occupieds (run / 64)) (run % 64)
  idx ← select_occupied qf (run / 64) rank
  (block_index, idx') ← next_occupied (qf.nblocks + 1) qf (run / 64) idx
  let run' : ℕ = block_index * 64 + idx'
  done (
      if block_index == qf.nblocks
      then (false, record { run = qf.xnslots; current = qf.xnslots })
      else (true, record { run = run'; current = if ltb current run' then run' else current }))

-- Whether there is a next item, and the iterator. At the end of the slots the run stays.
unfoldable pub qfi_next : Qf → Qfi → Outcome (Bool × Qfi)
unfolding qfi_end is_runend skip_extensions next_run
qfi_next qf qfi =
    if qfi_end qf qfi
    then done (false, qfi)
    else skip_extensions (rounds qf) qf (qfi.current + 1) >>= λ current.
        if leb qf.xnslots current
        then done (false, record { run = qfi.run; current = current })
        else if is_runend qf qfi.current
        then next_run qf qfi.run current
        else done (true, record { run = qfi.run; current = current })
