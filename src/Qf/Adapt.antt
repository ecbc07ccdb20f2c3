-- ===== src/Qf/Adapt.antt =====
-- Adapting a fingerprint: adapt, qf_adapt and qf_adapt_using_ll_table of src/gqf.c.
pub mod Separate
pub mod Keys
pub mod Fuel
use ski_rental_adaptive_qf.Prelude.{
  ℕ, zero, suc, ◌+◌, ◌*◌, ◌%◌, bit_or, Bool, true, false, ◌&&◌, not, Option, none, some, ltb, leb,
  ◌==◌, if◌then◌else◌, Outcome, done, spin, ◌>>=◌, ◌>>◌, assert,
}
use ski_rental_adaptive_qf.Hash.{sub64, shl, shr, low_bits}
use ski_rental_adaptive_qf.Qf.{Flags, Qf, hash_key, rounds}
use ski_rental_adaptive_qf.Qf.Bits.{
  is_runend, is_occupied, is_extension, is_counter, get_slot, set_slot, flip_runend, mark_extension,
}
use ski_rental_adaptive_qf.Qf.Runs.{skip_extensions, find_first_empty_slot, run_start}
use ski_rental_adaptive_qf.Qf.Shifts.{shift_remainders, shift_runends, bump_offsets, push_offsets}
use ski_rental_adaptive_qf.Qf.SlotInfo.{get_slot_info}
use ski_rental_adaptive_qf.Qf.Query.{hash_remainder, hash_bucket_index, fingerprint_bits}

-- The int that an operation returns: a value, QF_NO_SPACE or QF_COULDNT_LOCK.
pub data Ret : Type 0 where
  value : ℕ → Ret
  err_no_space : Ret
  err_couldnt_lock : Ret

-- What adapt returns, and its output parameter.
pub record Adapted : Type 0 where
  pub ret : Ret
  pub ret_hash : ℕ
  pub qf : Qf

-- One more slot is made for the extension, behind the slots that the item has.
unfoldable pub grow_extension : Qf → ℕ → ℕ → ℕ → ℕ → Outcome Qf
unfolding shift_remainders shift_runends set_slot bump_offsets
grow_extension qf at empty_slot_index bucket chunk = do
  qf₁ ← set_slot (shift_remainders qf at empty_slot_index) at chunk
  qf₂ ← shift_runends qf₁ at (sub64 empty_slot_index 1) 1
  done (record (mark_extension (push_offsets qf₂ bucket empty_slot_index) at) {
    noccupied_slots = qf.noccupied_slots + 1;
  })

-- The item's counter slot becomes an extension slot.
unfoldable pub take_counter : Qf → ℕ → ℕ → Outcome Qf
unfolding set_slot is_counter is_extension
take_counter qf at chunk = do
  qf₁ ← set_slot qf at chunk
  assert (is_counter qf₁ at)
  assert (is_extension (flip_runend qf₁ at) at)
  done (flip_runend qf₁ at)

-- One round of adapt on the filter: `none` if there is no empty slot left. The counter slot is taken
-- only after the search for one, as in the source.
unfoldable pub extend_slot : Qf → ℕ → ℕ → ℕ → ℕ → Outcome (Option Qf)
unfolding grow_extension take_counter find_first_empty_slot
extend_slot qf at bucket chunk count_len =
    find_first_empty_slot (rounds qf) qf at >>= λ empty_slot_index.
    elim (leb qf.xnslots empty_slot_index) [
      | true ↦ done none
      | false ↦
          (if count_len == 0
            then grow_extension qf at empty_slot_index bucket chunk
            else take_counter qf at chunk)
          >>= λ qf'. done (some qf')
    ]

-- How a round goes on: without a slot adapt fails, otherwise the loop's test decides.
unfoldable pub after_round :
    Bool → (Qf → Outcome Adapted) → (Qf → Adapted) → Adapted → Option Qf → Outcome Adapted
after_round again recur finish failed none = done failed
after_round again recur finish failed (some qf') = elim again [
  | true ↦ recur qf'
  | false ↦ done (finish qf')
]

-- The do-while of adapt. `total` is ext_bits + quotient_bits + bits_per_slot, the length of the
-- fingerprint; `hash` and `other_hash` have lost that many bits, less one slot's. Each round adds
-- at least one bit (bits_per_slot is at least 2), so 64 rounds are enough.
unfoldable pub adapt_loop : ℕ → Qf → ℕ → ℕ → ℕ → ℕ → ℕ → ℕ → ℕ → ℕ → Outcome Adapted
adapt_loop zero qf index bucket hash other_hash slots_used total ret_hash count_len = spin
adapt_loop (suc fuel) qf index bucket hash other_hash slots_used total ret_hash count_len =
    let hash' : ℕ = shr hash qf.bits_per_slot in
    let other' : ℕ = shr other_hash qf.bits_per_slot in
    let chunk : ℕ = low_bits hash' qf.bits_per_slot in
    let ret_hash' : ℕ = bit_or ret_hash (shl chunk total) in
    let total' : ℕ = total + qf.bits_per_slot in
    extend_slot qf (index + slots_used) bucket chunk count_len
    >>= after_round ((chunk == low_bits other' qf.bits_per_slot) && ltb total' 64)
        (λ qf'. adapt_loop fuel qf' index bucket hash' other' (slots_used + 1) total' ret_hash' 0)
        (λ qf'. record { ret = value total'; ret_hash = ret_hash'; qf = qf' })
        (record { ret = err_no_space; ret_hash = ret_hash; qf = qf })

-- The assertion on the counter leaves count_len at most 1, so the loop's two cases are all.
unfoldable pub adapt : Qf → ℕ → ℕ → ℕ → ℕ → Outcome Adapted
unfolding adapt_loop extend_slot after_round get_slot_info get_slot
adapt qf index bucket hash other_hash = do
  info ← get_slot_info qf index
  assert (leb info.count_slots 1)
  slot ← get_slot qf index
  assert (low_bits hash (fingerprint_bits qf) == bit_or slot (shl bucket qf.bits_per_slot))
  let ext_bits : ℕ = qf.bits_per_slot * info.ext_slots
  adapt_loop 64 qf index bucket (shr hash (ext_bits + qf.quotient_bits))
      (shr other_hash (ext_bits + qf.quotient_bits)) (info.ext_slots + 1)
      (ext_bits + fingerprint_bits qf) (low_bits hash (ext_bits + fingerprint_bits qf))
      info.count_slots

-- `(hash % range) >> bits_per_slot`
abbrev pub bucket_of : Qf → ℕ → ℕ
bucket_of qf hash = shr (hash % qf.range) qf.bits_per_slot

unfoldable pub qf_adapt : Qf → ℕ → ℕ → ℕ → ℕ → Flags → Outcome Adapted
unfolding adapt hash_key
qf_adapt qf index key other_key ret_hash flags =
    let hash : ℕ = hash_key qf key flags in
    let other_hash : ℕ = hash_key qf other_key flags in
    if hash == other_hash
    then done (record { ret = value 0; ret_hash = ret_hash; qf = qf })
    else adapt qf index (bucket_of qf hash) hash other_hash

-- The loop of qf_adapt_using_ll_table: 1 if it came to the item of the rank, 0 otherwise.
unfoldable pub adapt_rank_loop : ℕ → Qf → ℕ → ℕ → ℕ → ℕ → ℕ → ℕ → Flags → Outcome (ℕ × Qf)
adapt_rank_loop zero qf orig_key fp_key hash minirun_rank rank current_index flags = spin
adapt_rank_loop (suc fuel) qf orig_key fp_key hash minirun_rank rank current_index flags =
    get_slot qf current_index >>= λ slot. elim (ltb slot (hash_remainder qf hash)) [
      | true ↦ skip_extensions (rounds qf) qf (current_index + 1) >>= λ next.
          elim (ltb next qf.xnslots) [
            | true ↦ adapt_rank_loop fuel qf orig_key fp_key hash minirun_rank rank next flags
            | false ↦ done (0, qf)
          ]
      | false ↦ elim (slot == hash_remainder qf hash) [
        | true ↦ get_slot_info qf current_index >>= λ info. elim (rank == minirun_rank) [
          | true ↦ qf_adapt qf current_index orig_key fp_key info.ext flags >>= λ a. done (1, a.qf)
          | false ↦ elim (is_runend qf current_index) [
            | true ↦ done (0, qf)
            | false ↦
                let next : ℕ = current_index + (info.count_slots + info.ext_slots + 1) in
                elim (ltb next qf.xnslots) [
                  | true ↦
                      adapt_rank_loop fuel qf orig_key fp_key hash minirun_rank (rank + 1) next
                        flags
                  | false ↦ done (0, qf)
                ]
          ]
        ]
        | false ↦ done (0, qf)
      ]
    ]

unfoldable pub qf_adapt_using_ll_table : Qf → ℕ → ℕ → ℕ → Flags → Outcome (ℕ × Qf)
unfolding adapt_rank_loop run_start hash_key is_occupied
qf_adapt_using_ll_table qf orig_key fp_key minirun_rank flags =
    let hash : ℕ = hash_key qf fp_key flags in
    if not (is_occupied qf (hash_bucket_index qf hash))
    then done (0, qf)
    else run_start qf (hash_bucket_index qf hash) >>= λ s.
        adapt_rank_loop (rounds qf) qf orig_key fp_key hash minirun_rank 0 s flags
