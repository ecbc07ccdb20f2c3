-- ===== src/Qf/Query.antt =====
-- The queries of src/gqf.c. All five walk the run of the key's bucket and differ in what they
-- return; each is written with its own loop, as in the source.
pub mod Counts
pub mod Agree
pub mod Sound
pub mod Ends
use ski_rental_adaptive_qf.Prelude.{
  ℕ, zero, suc, ◌+◌, ◌*◌, bit_or, true, false, not, Option, none, some, ltb, ◌==◌, if◌then◌else◌,
  Outcome, done, spin, ◌>>=◌, ◌>>◌,
}
use ski_rental_adaptive_qf.Hash.{shl, shr, low_bits}
use ski_rental_adaptive_qf.Qf.{Flags, Qf, hash_key, rounds}
use ski_rental_adaptive_qf.Qf.Bits.{is_runend, is_occupied, get_slot}
use ski_rental_adaptive_qf.Qf.Runs.{skip_extensions, run_start}
use ski_rental_adaptive_qf.Qf.SlotInfo.{get_slot_info}

-- The remainder and the quotient of a hash, and what lies above them.
abbrev pub hash_remainder : Qf → ℕ → ℕ
hash_remainder qf hash = low_bits hash qf.bits_per_slot

abbrev pub hash_bucket_index : Qf → ℕ → ℕ
hash_bucket_index qf hash = low_bits (shr hash qf.bits_per_slot) qf.quotient_bits

abbrev pub fingerprint_bits : Qf → ℕ
fingerprint_bits qf = qf.quotient_bits + qf.bits_per_slot

-- `(hash >> (quotient_bits + bits_per_slot)) & BITMASK(bits_per_slot * ext_len)`
abbrev pub hash_ext : Qf → ℕ → ℕ → ℕ
hash_ext qf hash ext_len = low_bits (shr hash (fingerprint_bits qf)) (qf.bits_per_slot * ext_len)

-- The start of the run, or the bucket's own slot if that lies further on.
unfoldable pub query_start : Qf → ℕ → Outcome ℕ
unfolding run_start
query_start qf bucket = run_start qf bucket >>= λ s. done (if ltb s bucket then bucket else s)

-- What qf_query reports of the item found: its count, slot, fingerprint and fingerprint length.
pub record Found : Type 0 where
  pub count : ℕ
  pub ret_index : ℕ
  pub ret_hash : ℕ
  pub ret_hash_len : ℕ

-- The loop of qf_query. `none` is the source's result 0 without outputs.
unfoldable pub query_loop : ℕ → Qf → ℕ → ℕ → Outcome (Option Found)
query_loop zero qf hash current_index = spin
query_loop (suc fuel) qf hash current_index = get_slot qf current_index >>= λ slot.
    elim (slot == hash_remainder qf hash) [
      | true ↦ get_slot_info qf current_index >>= λ info.
          elim (hash_ext qf hash info.ext_slots == info.ext) [
            | true ↦ done (
                some (record {
                  count = info.count;
                  ret_index = current_index;
                  ret_hash =
                      bit_or (low_bits hash (fingerprint_bits qf))
                        (shl info.ext (fingerprint_bits qf));
                  ret_hash_len = qf.bits_per_slot * info.ext_slots + fingerprint_bits qf;
                }))
            | false ↦ elim (is_runend qf current_index) [
              | true ↦ done none
              | false ↦
                  let next : ℕ = current_index + 1 + (info.ext_slots + info.count_slots) in
                  elim (ltb next qf.xnslots) [
                    | true ↦ query_loop fuel qf hash next
                    | false ↦ done none
                  ]
            ]
          ]
      | false ↦ elim (is_runend qf current_index) [
        | true ↦ done none
        | false ↦ skip_extensions (rounds qf) qf (current_index + 1) >>= λ next.
            elim (ltb next qf.xnslots) [ true ↦ query_loop fuel qf hash next | false ↦ done none ]
      ]
    ]

unfoldable pub qf_query : Qf → ℕ → Flags → Outcome (Option Found)
unfolding query_loop query_start hash_key is_occupied
qf_query qf key flags =
    let hash : ℕ = hash_key qf key flags in
    if not (is_occupied qf (hash_bucket_index qf hash))
    then done none
    else query_start qf (hash_bucket_index qf hash) >>= λ s. query_loop (rounds qf) qf hash s

-- The loop of qf_query_using_ll_table: `none` is its result -1, `some` the rank.
unfoldable pub rank_loop : ℕ → Qf → ℕ → ℕ → ℕ → Outcome (Option ℕ)
rank_loop zero qf hash minirun_rank current_index = spin
rank_loop (suc fuel) qf hash minirun_rank current_index = get_slot qf current_index >>= λ slot.
    elim (slot == hash_remainder qf hash) [
      | true ↦ get_slot_info qf current_index >>= λ info.
          elim (hash_ext qf hash info.ext_slots == info.ext) [
            | true ↦ done (some minirun_rank)
            | false ↦ elim (is_runend qf current_index) [
              | true ↦ done none
              | false ↦
                  let next : ℕ = current_index + 1 + (info.ext_slots + info.count_slots) in
                  elim (ltb next qf.xnslots) [
                    | true ↦ rank_loop fuel qf hash (minirun_rank + 1) next
                    | false ↦ done none
                  ]
            ]
          ]
      | false ↦ elim (is_runend qf current_index) [
        | true ↦ done none
        | false ↦ skip_extensions (rounds qf) qf (current_index + 1) >>= λ next.
            elim (ltb next qf.xnslots) [
              | true ↦ rank_loop fuel qf hash minirun_rank next
              | false ↦ done none
            ]
      ]
    ]

unfoldable pub qf_query_using_ll_table : Qf → ℕ → Flags → Outcome (Option ℕ)
unfolding rank_loop query_start hash_key is_occupied
qf_query_using_ll_table qf key flags =
    let hash : ℕ = hash_key qf key flags in
    if not (is_occupied qf (hash_bucket_index qf hash))
    then done none
    else query_start qf (hash_bucket_index qf hash) >>= λ s. rank_loop (rounds qf) qf hash 0 s

-- The loop of qf_query_using_ll_table_with_ext_len. It also leaves the extension length of the last
-- slot with the key's remainder that it looked at.
unfoldable pub ext_len_loop : ℕ → Qf → ℕ → ℕ → ℕ → ℕ → Outcome (Option ℕ × ℕ)
ext_len_loop zero qf hash ret_ext_len minirun_rank current_index = spin
ext_len_loop (suc fuel) qf hash ret_ext_len minirun_rank current_index =
    get_slot qf current_index >>= λ slot. elim (slot == hash_remainder qf hash) [
      | true ↦ get_slot_info qf current_index >>= λ info.
          elim (hash_ext qf hash info.ext_slots == info.ext) [
            | true ↦ done (some minirun_rank, info.ext_slots)
            | false ↦ elim (is_runend qf current_index) [
              | true ↦ done (none, info.ext_slots)
              | false ↦
                  let next : ℕ = current_index + 1 + (info.ext_slots + info.count_slots) in
                  elim (ltb next qf.xnslots) [
                    | true ↦ ext_len_loop fuel qf hash info.ext_slots (minirun_rank + 1) next
                    | false ↦ done (none, info.ext_slots)
                  ]
            ]
          ]
      | false ↦ elim (is_runend qf current_index) [
        | true ↦ done (none, ret_ext_len)
        | false ↦ skip_extensions (rounds qf) qf (current_index + 1) >>= λ next.
            elim (ltb next qf.xnslots) [
              | true ↦ ext_len_loop fuel qf hash ret_ext_len minirun_rank next
              | false ↦ done (none, ret_ext_len)
            ]
      ]
    ]

unfoldable pub qf_query_using_ll_table_with_ext_len : Qf → ℕ → ℕ → Flags → Outcome (Option ℕ × ℕ)
unfolding ext_len_loop query_start hash_key is_occupied
qf_query_using_ll_table_with_ext_len qf key ret_ext_len flags =
    let hash : ℕ = hash_key qf key flags in
    if not (is_occupied qf (hash_bucket_index qf hash))
    then done (none, ret_ext_len)
    else query_start qf (hash_bucket_index qf hash) >>= λ s.
        ext_len_loop (rounds qf) qf hash ret_ext_len 0 s
