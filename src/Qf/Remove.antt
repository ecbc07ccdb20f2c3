-- ===== src/Qf/Remove.antt =====
-- _remove and qf_remove of src/gqf.c, with the routine that closes the gap.
pub mod LockLeak
pub mod Skip
use ski_rental_adaptive_qf.Prelude.{
  ℕ, zero, suc, ◌+◌, ◌-◌, ◌*◌, ◌/◌, ◌%◌, Bool, true, false, ◌&&◌, not, update, ltb, leb, ◌==◌,
  if◌then◌else◌, Outcome, done, spin, ◌>>=◌, ◌>>◌,
}
use ski_rental_adaptive_qf.Hash.{sub64, shr, low_bits}
use ski_rental_adaptive_qf.Qf.{Flags, Qf, hash_key, rounds}
use ski_rental_adaptive_qf.Qf.Bits.{
  is_runend, is_occupied, is_extension_or_counter, get_slot, set_slot, mark_runend, clear_runend,
  clear_extension, clear_occupied,
}
use ski_rental_adaptive_qf.Qf.Locks.{qf_lock, unlock_unless}
use ski_rental_adaptive_qf.Qf.Runs.{skip_extensions, run_end, run_start}
use ski_rental_adaptive_qf.Qf.SlotInfo.{get_slot_info}
use ski_rental_adaptive_qf.Qf.Query.{hash_remainder, hash_bucket_index, fingerprint_bits}

-- `while (is_extension_or_counter(qf, temp)) temp--;`
unfoldable pub back_to_item : ℕ → Qf → ℕ → Outcome ℕ
back_to_item zero qf temp = spin
back_to_item (suc fuel) qf temp = elim (is_extension_or_counter qf temp) [
  | true ↦ back_to_item fuel qf (temp - 1)
  | false ↦ done temp
]

-- `while (!is_runend(qf, slot)) slot++;`
unfoldable pub seek_runend : ℕ → Qf → ℕ → Outcome ℕ
seek_runend zero qf slot = spin
seek_runend (suc fuel) qf slot = elim (is_runend qf slot) [
  | true ↦ done slot
  | false ↦ seek_runend fuel qf (slot + 1)
]

-- `do { bucket++; } while (bucket <= slot && !is_occupied(qf, bucket));`
unfoldable pub next_bucket : ℕ → Qf → ℕ → ℕ → Outcome ℕ
next_bucket zero qf slot bucket = spin
next_bucket (suc fuel) qf slot bucket =
    elim (leb (bucket + 1) slot && not (is_occupied qf (bucket + 1))) [
      | true ↦ next_bucket fuel qf slot (bucket + 1)
      | false ↦ done (bucket + 1)
    ]

-- The last slot of a run's last item: on from its run end over the slots behind it.
unfoldable pub last_slot : Qf → ℕ → Outcome ℕ
last_slot qf runend = skip_extensions (rounds qf) qf (runend + 1) >>= λ stop. done (stop - 1)

-- The runs behind, until one ends before its next bucket: the end of the cluster.
unfoldable pub cluster_end : ℕ → Qf → ℕ → ℕ → Outcome ℕ
unfolding seek_runend next_bucket last_slot
cluster_end zero qf current_bucket current_slot = spin
cluster_end (suc fuel) qf current_bucket current_slot = elim (leb current_bucket current_slot) [
  | true ↦ seek_runend (rounds qf) qf (current_slot + 1) >>= λ runend.
      last_slot qf runend >>= λ slot.
      next_bucket (rounds qf) qf slot current_bucket >>= λ bucket. cluster_end fuel qf bucket slot
  | false ↦ done current_slot
]

-- The metadata bits of a slot become those of the next, by flipping what differs.
abbrev pub copy_bits : Qf → ℕ → Qf
copy_bits qf i = record qf {
  runends = update qf.runends i (qf.runends (i + 1));
  extensions = update qf.extensions i (qf.extensions (i + 1));
}

-- Slots from i on take what stands one slot further, n of them.
unfoldable pub move_back : ℕ → Qf → ℕ → Outcome Qf
move_back zero qf i = done qf
move_back (suc n) qf i = do
  slot ← get_slot qf (i + 1)
  qf₁ ← set_slot qf i slot
  move_back n (copy_bits qf₁ i) (i + 1)

-- One slot of the item is deleted: the rest of the cluster moves back, and its last slot is cleared.
unfoldable pub delete_slot : Qf → Bool → ℕ → ℕ → Outcome Qf
unfolding seek_runend last_slot next_bucket cluster_end move_back set_slot
delete_slot qf was_runend bucket_index overwrite_index = do
  runend ← (if was_runend then done overwrite_index else seek_runend (rounds qf) qf overwrite_index)
  slot ← last_slot qf runend
  bucket ← next_bucket (rounds qf) qf slot bucket_index
  end ← cluster_end (rounds qf) qf bucket slot
  qf₁ ← move_back (end - overwrite_index) qf overwrite_index
  let i : ℕ = if ltb overwrite_index end then end else overwrite_index
  qf₂ ← set_slot qf₁ i 0
  done (clear_extension (clear_runend qf₂ i) i)

unfoldable pub delete_slots : ℕ → Qf → Bool → ℕ → ℕ → Outcome Qf
unfolding delete_slot
delete_slots zero qf was_runend bucket_index overwrite_index = done qf
delete_slots (suc n) qf was_runend bucket_index overwrite_index =
    delete_slot qf was_runend bucket_index overwrite_index >>= λ qf'.
    delete_slots n qf' was_runend bucket_index overwrite_index

-- The `while (1)` over the blocks: each next block's offset is set anew until one is right already.
unfoldable pub repair_offsets : ℕ → Qf → ℕ → Outcome Qf
unfolding run_end
repair_offsets zero qf original_block = spin
repair_offsets (suc fuel) qf original_block =
    let last : ℕ = 64 * original_block + 63 in
    run_end qf last >>= λ runend_index.
    let offset' : ℕ = if (runend_index / 64) == original_block then 0 else runend_index - last in
    elim (qf.offset (original_block + 1) == offset') [
      | true ↦ done qf
      | false ↦
          repair_offsets fuel
            (record qf { offset = update qf.offset (original_block + 1) (offset' % 256) })
            (original_block + 1)
    ]

unfoldable pub remove_replace_slots_and_shift_remainders_and_runends_and_offsets :
    Qf → Bool → ℕ → ℕ → ℕ → Outcome Qf
unfolding back_to_item delete_slots repair_offsets is_runend
remove_replace_slots_and_shift_remainders_and_runends_and_offsets qf only_item_in_run bucket_index
      overwrite_index old_length =
    do
      let was_runend : Bool = is_runend qf overwrite_index
      qf₁ ←
          (if was_runend && not only_item_in_run
            then (back_to_item (rounds qf) qf (overwrite_index - 1) >>= λ temp.
                done (mark_runend qf temp))
            else done qf)
      qf₂ ← delete_slots old_length qf₁ was_runend bucket_index overwrite_index
      let qf₃ : Qf = if only_item_in_run then clear_occupied qf₂ bucket_index else qf₂
      if old_length == 0 then done qf₃ else repair_offsets (qf.nblocks + 1) qf₃ (bucket_index / 64)

-- The output parameters of the removal.
pub record RemoveOutputs : Type 0 where
  pub ret_hash : ℕ
  pub ret_hash_len : ℕ

-- What _remove returns: the slots freed, or -2 if it could not lock.
pub data Removed : Type 0 where
  freed : ℕ → Removed
  not_locked : Removed

-- `while (is_extension_or_counter(qf, ++current_index)) current_index++;` moves on twice in a round.
unfoldable pub skip_by_two : ℕ → Qf → ℕ → Outcome ℕ
skip_by_two zero qf current_index = spin
skip_by_two (suc fuel) qf current_index = elim (is_extension_or_counter qf (current_index + 1)) [
  | true ↦ skip_by_two fuel qf (current_index + 1 + 1)
  | false ↦ done (current_index + 1)
]

unfoldable pub remove_loop :
    ℕ → Qf → ℕ → Flags → ℕ → ℕ → RemoveOutputs → Outcome (Removed × RemoveOutputs × Qf)
unfolding remove_replace_slots_and_shift_remainders_and_runends_and_offsets skip_by_two
remove_loop zero qf hash flags runstart current_index out = spin
remove_loop (suc fuel) qf hash flags runstart current_index out =
    let bucket : ℕ = hash_bucket_index qf hash in
    get_slot qf current_index >>= λ slot. elim (slot == hash_remainder qf hash) [
      | true ↦ get_slot_info qf current_index >>= λ info.
          let out' : RemoveOutputs = record {
            ret_hash = info.ext;
            ret_hash_len = info.ext_slots;
          } in
          elim (info.ext
            == low_bits (shr hash (fingerprint_bits qf)) (info.ext_slots * qf.bits_per_slot)) [
              | true ↦
                  let length : ℕ = info.count_slots + info.ext_slots + 1 in
                  remove_replace_slots_and_shift_remainders_and_runends_and_offsets qf
                    ((current_index == runstart) && is_runend qf current_index) bucket current_index
                    length
                  >>= λ qf'. done (
                    freed length,
                    out',
                    unlock_unless flags
                        (record qf' {
                          noccupied_slots = sub64 qf'.noccupied_slots length;
                          ndistinct_elts = sub64 qf'.ndistinct_elts 1;
                          nelts = sub64 qf'.nelts info.count;
                        })
                        bucket false,
                  )
              | false ↦ elim (is_runend qf current_index) [
                | true ↦ done (freed 0, out', unlock_unless flags qf bucket false)
                | false ↦
                    let next : ℕ = current_index + (info.count_slots + info.ext_slots + 1) in
                    elim (ltb next qf.xnslots) [
                      | true ↦ remove_loop fuel qf hash flags runstart next out'
                      | false ↦ done (freed 0, out', unlock_unless flags qf bucket false)
                    ]
              ]
            ]
      | false ↦ elim (is_runend qf current_index) [
        | true ↦ done (freed 0, out, unlock_unless flags qf bucket false)
        | false ↦ skip_by_two (rounds qf) qf current_index >>= λ next. elim (ltb next qf.xnslots) [
          | true ↦ remove_loop fuel qf hash flags runstart next out
          | false ↦ done (freed 0, out, unlock_unless flags qf bucket false)
        ]
      ]
    ]

-- For a bucket that holds nothing the source returns without unlocking.
unfoldable pub remove : Qf → ℕ → RemoveOutputs → Flags → Outcome (Removed × RemoveOutputs × Qf)
unfolding remove_loop skip_extensions run_start is_occupied qf_lock
remove qf hash out flags = do
  let bucket : ℕ = hash_bucket_index qf hash
  (got, qf₁) ← (if flags.no_lock then done (true, qf) else qf_lock qf bucket false flags)
  if not got
      then done (not_locked, out, qf₁)
      else if not (is_occupied qf₁ bucket)
      then done (freed 0, out, qf₁)
      else (do
        runstart ← run_start qf₁ bucket
        start ← skip_extensions (rounds qf₁) qf₁ runstart
        remove_loop (rounds qf₁) qf₁ hash flags runstart start out)

unfoldable pub qf_remove : Qf → ℕ → RemoveOutputs → Flags → Outcome (Removed × RemoveOutputs × Qf)
unfolding remove hash_key
qf_remove qf key out flags = remove qf (hash_key qf key flags) out flags
