-- ===== src/Qf/Insert.antt =====
-- insert, qf_insert_ret and qf_insert of src/gqf.c.
pub mod LlTable
pub mod Locks
pub mod LlLocks
pub mod LlCounts
pub mod Existing
use ski_rental_adaptive_qf.Prelude.{
  ℕ, zero, suc, ◌+◌, ◌-◌, ◌*◌, bit_or, Bool, true, false, ◌&&◌, not, Option, none, some, ltb, leb,
  ◌==◌, if◌then◌else◌, Outcome, done, spin, ◌>>=◌, ◌>>◌, assert,
}
use ski_rental_adaptive_qf.Hash.{shl, shr, low_bits}
use ski_rental_adaptive_qf.Qf.{Flags, Qf, hash_key, rounds}
use ski_rental_adaptive_qf.Qf.Bits.{
  is_runend, is_occupied, is_extension_or_counter, get_slot, set_slot, mark_runend, flip_runend,
  mark_occupied, might_be_empty,
}
use ski_rental_adaptive_qf.Qf.Locks.{qf_lock, unlock_unless}
use ski_rental_adaptive_qf.Qf.Runs.{skip_extensions, run_end, run_start}
use ski_rental_adaptive_qf.Qf.Shifts.{insert_one_slot}
use ski_rental_adaptive_qf.Qf.SlotInfo.{get_slot_info}
use ski_rental_adaptive_qf.Qf.Adapt.{Ret, value, err_no_space, err_couldnt_lock}
use ski_rental_adaptive_qf.Qf.Extend.{insert_and_extend}
use ski_rental_adaptive_qf.Qf.Query.{hash_remainder, fingerprint_bits}

-- The output parameters of the insertion.
pub record Outputs : Type 0 where
  pub ret_index : ℕ
  pub ret_hash : ℕ
  pub ret_hash_len : ℕ

-- `(hash & BITMASK(quotient_bits + bits_per_slot)) >> bits_per_slot`
abbrev pub insert_bucket : Qf → ℕ → ℕ
insert_bucket qf hash = shr (low_bits hash (fingerprint_bits qf)) qf.bits_per_slot

-- How the walk over the bucket's run ends: at a place for the item, at an item with its fingerprint,
-- or beyond the last slot.
pub data Walk : Type 0 where
  place : (insert_index current_index : ℕ) → (was_runend : Bool) → Outputs → Walk
  existing : Outputs → Walk
  ran_off : Outputs → Walk

unfoldable pub insert_walk : ℕ → Qf → ℕ → Flags → ℕ → Outputs → Outcome Walk
insert_walk zero qf hash flags current_index out = spin
insert_walk (suc fuel) qf hash flags current_index out =
    get_slot qf current_index >>= λ current_remainder.
    elim (ltb (hash_remainder qf hash) current_remainder) [
      | true ↦ done (place current_index current_index false out)
      | false ↦ elim (current_remainder == hash_remainder qf hash) [
        | true ↦ elim flags.try_once_lock [
          | true ↦ done (place current_index current_index false out)
          | false ↦ get_slot_info qf current_index >>= λ info.
              let out' : Outputs = record out {
                ret_hash = info.ext;
                ret_hash_len = info.ext_slots;
              } in
              elim (info.ext
                == low_bits (shr hash (fingerprint_bits qf)) (info.ext_slots * qf.bits_per_slot)) [
                  | true ↦ done (
                      existing (record {
                        ret_index = current_index;
                        ret_hash =
                            bit_or (shl info.ext (fingerprint_bits qf))
                              (low_bits hash (fingerprint_bits qf));
                        ret_hash_len = info.ext_slots * qf.bits_per_slot + fingerprint_bits qf;
                      }))
                  | false ↦ elim (is_runend qf current_index) [
                    | true ↦ done (
                        place (current_index + 1 + info.ext_slots + info.count_slots) current_index
                          true out')
                    | false ↦
                        let next : ℕ = current_index + (info.count_slots + info.ext_slots + 1) in
                        elim (ltb next qf.xnslots) [
                          | true ↦ insert_walk fuel qf hash flags next out'
                          | false ↦ done (ran_off out')
                        ]
                  ]
                ]
        ]
        | false ↦ elim (is_runend qf current_index) [
          | true ↦ skip_extensions (rounds qf) qf (current_index + 1) >>= λ insert_index.
              done (place insert_index current_index true out)
          | false ↦ skip_extensions (rounds qf) qf (current_index + 1) >>= λ next.
              elim (ltb next qf.xnslots) [
                | true ↦ insert_walk fuel qf hash flags next out
                | false ↦ done (ran_off out)
              ]
        ]
      ]
    ]

-- `ndistinct_elts++; noccupied_slots++; nelts += n;`
abbrev pub count_in : Qf → ℕ → Qf
count_in qf n = record qf {
  ndistinct_elts = qf.ndistinct_elts + 1;
  noccupied_slots = qf.noccupied_slots + 1;
  nelts = qf.nelts + n;
}

-- `if (count > 1) insert_and_extend(qf, index, hash, count - 1, hash, ..., QF_KEY_IS_HASH | QF_NO_LOCK);`
unfoldable pub add_count : Qf → ℕ → ℕ → ℕ → Outcome Qf
unfolding insert_and_extend
add_count qf index hash count =
    if ltb 1 count
    then (insert_and_extend qf index hash (count - 1) hash (record {
      no_lock = true;
      try_once_lock = false;
      wait_for_lock = false;
      key_is_hash = true;
    })
        >>= λ (_, qf'). done qf')
    else done qf

-- The bucket's own slot is empty.
unfoldable pub insert_empty_slot : Qf → ℕ → ℕ → ℕ → Outcome Qf
unfolding set_slot
insert_empty_slot qf bucket remainder n = set_slot qf bucket remainder >>= λ qf'.
    done (count_in (mark_occupied (mark_runend qf' bucket) bucket) n)

-- The bucket is empty and its slot is taken. The result of insert_one_slot is not looked at.
unfoldable pub insert_new_run : Qf → ℕ → ℕ → ℕ → ℕ → Outcome Qf
unfolding insert_one_slot
insert_new_run qf bucket runstart_index remainder n =
    insert_one_slot qf bucket runstart_index remainder >>= λ (_, qf').
    done (count_in (mark_occupied (mark_runend qf' runstart_index) bucket) n)

-- The item goes to its place in the run; the run end moves to it if it became the last.
unfoldable pub insert_in_run : Qf → ℕ → ℕ → ℕ → Bool → ℕ → ℕ → Outcome Qf
unfolding insert_one_slot
insert_in_run qf bucket insert_index current_index was_runend remainder n =
    insert_one_slot qf bucket insert_index remainder >>= λ (_, qf'). done (
      count_in
        (if was_runend then flip_runend (mark_runend qf' insert_index) current_index else qf') n)

-- The output of a new item: its quotient and remainder.
abbrev pub new_outputs : Qf → ℕ → Outputs → Outputs
new_outputs qf hash out = record out {
  ret_hash = low_bits hash (fingerprint_bits qf);
  ret_hash_len = fingerprint_bits qf;
}

-- The body of insert between taking the lock and giving it back: the result, the outputs, the state.
unfoldable pub insert_body : Qf → ℕ → ℕ → Flags → Outputs → Outcome (Ret × Outputs × Qf)
unfolding insert_walk insert_empty_slot insert_new_run insert_in_run add_count run_end run_start
    might_be_empty is_occupied is_extension_or_counter
insert_body qf hash count flags out = do
  let bucket : ℕ = insert_bucket qf hash
  runend_index ← run_end qf bucket
  if might_be_empty qf bucket && (runend_index == bucket)
      then (do
        qf₁ ← insert_empty_slot qf bucket (hash_remainder qf hash) 1
        qf₂ ← add_count qf₁ bucket hash count
        done (value 1, new_outputs qf hash out, qf₂))
      else (do
        runstart_index ← run_start qf bucket
        if not (is_occupied qf bucket)
            then (do
              qf₁ ← insert_new_run qf bucket runstart_index (hash_remainder qf hash) 1
              qf₂ ← add_count qf₁ bucket hash count
              done (value 1, new_outputs qf hash out, qf₂))
            else (do
              assert (not (is_extension_or_counter qf runstart_index))
              walk ← insert_walk (rounds qf) qf hash flags runstart_index out
              elim walk [
                | ran_off out' ↦ done (err_no_space, out', qf)
                | existing out' ↦ done (value 0, out', qf)
                | place insert_index current_index was_runend out' ↦
                    insert_in_run qf bucket insert_index current_index was_runend
                      (hash_remainder qf hash) 1
                    >>= λ qf₁. add_count qf₁ insert_index hash count >>= λ qf₂.
                        -- With a count above 1 the length is overwritten by the 0 that
                        -- insert_and_extend returns for an item with one hash.
                        done (
                          value 1,
                          (if ltb 1 count
                              then record (new_outputs qf hash out') { ret_hash_len = 0 }
                              else new_outputs qf hash out'),
                          qf₂,
                        )
              ]))

unfoldable pub insert : Qf → ℕ → ℕ → Flags → Outputs → Outcome (Ret × Outputs × Qf)
unfolding insert_body qf_lock unlock_unless
insert qf hash count flags out = do
  (got, qf₁) ←
      (if flags.no_lock then done (true, qf) else qf_lock qf (insert_bucket qf hash) true flags)
  if not got then done (err_couldnt_lock, out, qf₁) else (do
    (ret, out', qf₂) ← insert_body qf₁ hash count flags out
    done (ret, out', unlock_unless flags qf₂ (insert_bucket qf hash) true))

-- `noccupied_slots >= nslots * 0.95`, with the fraction cleared.
abbrev pub is_full : Qf → Bool
is_full qf = leb (95 * qf.nslots) (100 * qf.noccupied_slots)

-- Resizing is the caller's `container_resize`: it returns a negative result as `none`.
unfoldable pub make_space : (Qf → ℕ → Outcome (Option Qf)) → Qf → Outcome (Option Qf)
make_space container_resize qf =
    if is_full qf
    then if qf.auto_resize then container_resize qf (qf.nslots * 2) else done none
    else done (some qf)

unfoldable pub qf_insert_ret :
    (Qf → ℕ → Outcome (Option Qf)) → Qf → ℕ → ℕ → Flags → Outputs → Outcome (Ret × Outputs × Qf)
unfolding make_space insert hash_key
qf_insert_ret container_resize qf key count flags out = do
  space ← make_space container_resize qf
  elim space [
    | none ↦ done (err_no_space, out, qf)
    | some qf' ↦
        if count == 0
        then done (value 0, out, qf')
        else insert qf' (hash_key qf' key flags) count flags out
  ]

-- `(key << value_bits) | (value & BITMASK(value_bits))`
unfoldable pub qf_insert :
    (Qf → ℕ → Outcome (Option Qf)) → Qf → ℕ → ℕ → ℕ → Flags → Outcome (Ret × Qf)
unfolding make_space insert hash_key
qf_insert container_resize qf key value_part count flags = do
  space ← make_space container_resize qf
  elim space [
    | none ↦ done (err_no_space, qf)
    | some qf' ↦
        if count == 0
        then done (value 0, qf')
        else insert qf'
            (bit_or (shl (hash_key qf' key flags) qf'.value_bits)
              (low_bits value_part qf'.value_bits))
            count flags (record { ret_index = 0; ret_hash = 0; ret_hash_len = 0 })
          >>= λ (ret, _, qf''). done (ret, qf'')
  ]
