-- ===== src/Qf/Runs.antt =====
-- Where runs begin and end: block_offset, run_end, offset_lower_bound and find_first_empty_slot.
use ski_rental_adaptive_qf.Prelude.{
  ℕ, zero, suc, ◌+◌, ◌-◌, ◌*◌, ◌/◌, ◌%◌, true, false, ltb, leb, ◌==◌, if◌then◌else◌, Outcome, done,
  abort, spin, ◌>>=◌, ℤ, pos, negsuc, sub_ℕ,
}
use ski_rental_adaptive_qf.Word.{
  Word, ◌&w◌, not_word, shr_word, bitmask_word, popcnt, popcntv, bitrank, bitselectv,
}
use ski_rental_adaptive_qf.Row.{word}
use ski_rental_adaptive_qf.Qf.{Qf, no_space, rounds}
use ski_rental_adaptive_qf.Qf.Bits.{is_extension_or_counter}

-- `while (is_extension_or_counter(qf, i)) i++;`
unfoldable pub skip_extensions : ℕ → Qf → ℕ → Outcome ℕ
skip_extensions zero qf i = spin
skip_extensions (suc fuel) qf i = elim (is_extension_or_counter qf i) [
  | true ↦ skip_extensions fuel qf (i + 1)
  | false ↦ done i
]

-- The bits of a block that end a run: runends that are no counters.
abbrev pub ends_word : Qf → ℕ → Word
ends_word qf b = word qf.runends b &w not_word (word qf.extensions b)

-- The do-while of run_end: the next block while the rank'th run end lies in none so far. That
-- bitselectv returned 64 says that popcntv is at most the rank, so the subtraction does not wrap.
unfoldable pub next_runend : ℕ → Qf → ℕ → ℕ → ℕ → Outcome ℕ
next_runend zero qf rank block ignore = spin
next_runend (suc fuel) qf rank block ignore =
    let rank' : ℕ = rank - popcntv (ends_word qf block) ignore in
    let found : ℕ = bitselectv (ends_word qf (block + 1)) 0 rank' in
    elim (found == 64) [
      | true ↦ next_runend fuel qf rank' (block + 1) 0
      | false ↦ done (64 * (block + 1) + found)
    ]

-- The end of run_end, from the run end found.
unfoldable pub close_run : Qf → ℕ → ℕ → Outcome ℕ
unfolding skip_extensions
close_run qf hash_bucket_index runend_index = do
  stop ← skip_extensions (rounds qf) qf (runend_index + 1)
  done (if ltb (stop - 1) hash_bucket_index then hash_bucket_index else stop - 1)

-- run_end, given the offset of the bucket's block.
unfoldable pub run_end_with : Qf → ℕ → ℕ → Outcome ℕ
unfolding next_runend close_run bitrank bitselectv
run_end_with qf blocks_offset hash_bucket_index =
    let block : ℕ = hash_bucket_index / 64 in
    let rank : ℕ = bitrank (word qf.occupieds block) (hash_bucket_index % 64) in
    let runend_block : ℕ = block + blocks_offset / 64 in
    let ignore : ℕ = blocks_offset % 64 in
    let found : ℕ = bitselectv (ends_word qf runend_block) ignore (rank - 1) in
    if rank == 0
    then if leb blocks_offset (hash_bucket_index % 64)
      then done hash_bucket_index
      else done (64 * block + blocks_offset - 1)
    else (if found == 64
        then next_runend (qf.nblocks + 1) qf (rank - 1) runend_block ignore
        else done (64 * runend_block + found))
      >>= close_run qf hash_bucket_index

-- A full offset byte (255) is worked out from the block before. For block 0 the source would ask for
-- the run end of bucket 2^64 - 1, a read outside the table.
unfoldable pub block_offset : Qf → ℕ → Outcome ℕ
unfolding run_end_with
block_offset qf zero = if ltb (qf.offset 0) 255 then done (qf.offset 0) else abort
block_offset qf (suc b) =
    let before = block_offset qf b in
    if ltb (qf.offset (suc b)) 255
    then done (qf.offset (suc b))
    else before >>= λ o. run_end_with qf o (64 * suc b - 1) >>= λ e. done (e + 1 - 64 * suc b)

unfoldable pub run_end : Qf → ℕ → Outcome ℕ
unfolding block_offset
run_end qf hash_bucket_index =
    block_offset qf (hash_bucket_index / 64) >>= λ o. run_end_with qf o hash_bucket_index

-- `hash_bucket_index == 0 ? 0 : run_end(qf, hash_bucket_index - 1) + 1`
unfoldable pub run_start : Qf → ℕ → Outcome ℕ
unfolding run_end
run_start qf hash_bucket_index =
    if hash_bucket_index == 0
    then done 0
    else run_end qf (hash_bucket_index - 1) >>= λ e. done (e + 1)

unfoldable pub offset_lower_bound : Qf → ℕ → ℤ
unfolding popcnt
offset_lower_bound qf slot_index =
    let b : ℕ = slot_index / 64 in
    let slot_offset : ℕ = slot_index % 64 in
    let boffset : ℕ = qf.offset b in
    let occupieds : Word = word qf.occupieds b &w bitmask_word (slot_offset + 1) in
    let runends : Word = shr_word (ends_word qf b &w bitmask_word slot_offset) boffset in
    if leb boffset slot_offset
    then sub_ℕ (popcnt occupieds) (popcnt runends)
    else pos (boffset - slot_offset + popcnt occupieds)

-- A negative bound makes the source return -1; otherwise it moves on by the bound until that is 0.
unfoldable pub find_first_empty_slot : ℕ → Qf → ℕ → Outcome ℕ
unfolding offset_lower_bound skip_extensions
find_first_empty_slot zero qf start = spin
find_first_empty_slot (suc fuel) qf start = skip_extensions (rounds qf) qf start >>= λ at.
    elim (offset_lower_bound qf at) [
      | negsuc _ ↦ done no_space
      | pos zero ↦ done at
      | pos (suc t) ↦ find_first_empty_slot fuel qf (at + suc t)
    ]
