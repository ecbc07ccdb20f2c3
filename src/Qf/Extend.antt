-- ===== src/Qf/Extend.antt =====
-- Counting and inserting at a known slot: insert_and_extend of src/gqf.c.
pub mod Misplaced
pub mod Recount
pub mod CountUp
use ski_rental_adaptive_qf.Prelude.{
  ℕ, zero, suc, ◌+◌, ◌-◌, true, false, not, ltb, ◌==◌, if◌then◌else◌, Outcome, done, spin, ◌>>=◌,
  ◌>>◌, assert,
}
use ski_rental_adaptive_qf.Hash.{add64, shr, low_bits}
use ski_rental_adaptive_qf.Qf.{Flags, Qf, hash_key}
use ski_rental_adaptive_qf.Qf.Bits.{set_slot, mark_runend, mark_extension}
use ski_rental_adaptive_qf.Qf.Locks.{qf_lock, unlock_unless}
use ski_rental_adaptive_qf.Qf.Shifts.{insert_one_slot}
use ski_rental_adaptive_qf.Qf.SlotInfo.{get_slot_info}
use ski_rental_adaptive_qf.Qf.Adapt.{Ret, value, err_couldnt_lock, adapt, bucket_of}
use ski_rental_adaptive_qf.Qf.Query.{hash_bucket_index, hash_remainder, fingerprint_bits}

-- The counter slots that the item has are rewritten: n of them are left. As in the source they are
-- sought behind `ext`, the value of the extension, and not behind its slots.
unfoldable pub rewrite_counter : ℕ → Qf → ℕ → ℕ → Outcome (ℕ × Qf)
unfolding set_slot
rewrite_counter zero qf at new_count = done (new_count, qf)
rewrite_counter (suc n) qf at new_count =
    set_slot qf at (low_bits new_count qf.bits_per_slot) >>= λ qf'.
    rewrite_counter n qf' (at + 1) (shr new_count qf.bits_per_slot)

-- What is left of the count goes to new slots, which are marked as counters. The result of
-- insert_one_slot is not looked at. 64 rounds shift a count out, as a slot has at least one bit.
unfoldable pub append_counter : ℕ → Qf → ℕ → ℕ → ℕ → Outcome Qf
unfolding insert_one_slot
append_counter zero qf target at new_count = if new_count == 0 then done qf else spin
append_counter (suc fuel) qf target at new_count = elim (new_count == 0) [
  | true ↦ done qf
  | false ↦ insert_one_slot qf target at (low_bits new_count qf.bits_per_slot) >>= λ (_, qf₁).
      append_counter fuel
        (record (mark_runend (mark_extension qf₁ at) at) {
          noccupied_slots = qf₁.noccupied_slots + 1;
        })
        target (at + 1) (shr new_count qf.bits_per_slot)
]

-- The branch of insert_and_extend for one and the same hash: the counter goes up.
unfoldable pub increment_counter : Qf → ℕ → ℕ → ℕ → Outcome Qf
unfolding rewrite_counter append_counter get_slot_info
increment_counter qf index hash count = do
  info ← get_slot_info qf index
  (left, qf₁) ← rewrite_counter info.count_slots qf (index + 1 + info.ext) (add64 info.count count)
  qf₂ ←
      append_counter 64 qf₁ (hash_bucket_index qf hash)
        (index + 1 + info.ext_slots + info.count_slots) left
  done (record qf₂ { nelts = qf₂.nelts + count })

-- The branch for two hashes: both fingerprints are extended, the new item in front. The call for a
-- larger count hashes `key` again unless the flags say that it is a hash.
unfoldable pub insert_second : Qf → ℕ → ℕ → ℕ → ℕ → Flags → Outcome (Ret × Qf)
unfolding adapt insert_one_slot increment_counter hash_key
insert_second qf index hash count other_hash flags = do
  first ← adapt qf index (bucket_of qf hash) other_hash hash
  (_, qf₁) ← insert_one_slot first.qf (hash_bucket_index qf hash) index (hash_remainder qf hash)
  second ← adapt qf₁ index (bucket_of qf hash) hash other_hash
  let qf₂ : Qf = record second.qf {
    ndistinct_elts = second.qf.ndistinct_elts + 1;
    noccupied_slots = second.qf.noccupied_slots + 1;
    nelts = second.qf.nelts + 1;
  }
  qf₃ ←
      (if ltb 1 count
        then increment_counter qf₂ index (hash_key qf₂ hash flags) (count - 1)
        else done qf₂)
  done (first.ret, qf₃)

unfoldable pub insert_and_extend : Qf → ℕ → ℕ → ℕ → ℕ → Flags → Outcome (Ret × Qf)
unfolding insert_second increment_counter qf_lock unlock_unless hash_key
insert_and_extend qf index key count other_key flags = do
  (got, qf₁) ← (if flags.no_lock then done (true, qf) else qf_lock qf index false flags)
  let hash : ℕ = hash_key qf key flags
  let other_hash : ℕ = hash_key qf other_key flags
  if not got then done (err_couldnt_lock, qf₁) else (do
    assert (low_bits hash (fingerprint_bits qf) == low_bits other_hash (fingerprint_bits qf))
    (ret, qf₂) ←
        (if hash == other_hash
          then (increment_counter qf₁ index hash count >>= λ q. done (value 0, q))
          else insert_second qf₁ index hash count other_hash flags)
    done (ret, unlock_unless flags qf₂ index false))
