-- ===== src/Qf/Query/Counts.antt =====
-- The two queries that return the count, qf_get_count_using_ll_table and the one that also returns
-- the slot, on which the ski-rental filters decide.
use ski_rental_adaptive_qf.Prelude.{
  ℕ, zero, suc, ◌+◌, ◌%◌, true, false, not, Option, none, some, ltb, ◌==◌, if◌then◌else◌, Outcome,
  done, spin, ◌>>=◌,
}
use ski_rental_adaptive_qf.Qf.{Flags, Qf, hash_key, rounds}
use ski_rental_adaptive_qf.Qf.Bits.{is_runend, is_occupied, get_slot}
use ski_rental_adaptive_qf.Qf.Runs.{skip_extensions}
use ski_rental_adaptive_qf.Qf.SlotInfo.{get_slot_info}
use ski_rental_adaptive_qf.Qf.Query.{hash_remainder, hash_bucket_index, hash_ext, query_start}

-- The loop of qf_get_count_using_ll_table_with_index. The result is the count and the slot of the
-- item found (`none` is the count 0 with `*ret_index` left alone), and the rank, a uint8_t.
unfoldable pub count_index_loop : ℕ → Qf → ℕ → ℕ → ℕ → Outcome (Option (ℕ × ℕ) × ℕ)
count_index_loop zero qf hash rank current_index = spin
count_index_loop (suc fuel) qf hash rank current_index = get_slot qf current_index >>= λ slot.
    elim (slot == hash_remainder qf hash) [
      | true ↦ get_slot_info qf current_index >>= λ info.
          elim (hash_ext qf hash info.ext_slots == info.ext) [
            | true ↦ done (some (info.count, current_index), rank)
            | false ↦
                let rank' : ℕ = (rank + 1) % 256 in
                elim (is_runend qf current_index) [
                  | true ↦ done (none, rank')
                  | false ↦
                      let next : ℕ = current_index + 1 + (info.ext_slots + info.count_slots) in
                      elim (ltb next qf.xnslots) [
                        | true ↦ count_index_loop fuel qf hash rank' next
                        | false ↦ done (none, rank')
                      ]
                ]
          ]
      | false ↦ elim (is_runend qf current_index) [
        | true ↦ done (none, rank)
        | false ↦ skip_extensions (rounds qf) qf (current_index + 1) >>= λ next.
            elim (ltb next qf.xnslots) [
              | true ↦ count_index_loop fuel qf hash rank next
              | false ↦ done (none, rank)
            ]
      ]
    ]

unfoldable pub qf_get_count_using_ll_table_with_index :
    Qf → ℕ → ℕ → Flags → Outcome (Option (ℕ × ℕ) × ℕ)
unfolding count_index_loop query_start hash_key is_occupied
qf_get_count_using_ll_table_with_index qf key ret_minirun_rank flags =
    let hash : ℕ = hash_key qf key flags in
    if not (is_occupied qf (hash_bucket_index qf hash))
    then done (none, ret_minirun_rank)
    else query_start qf (hash_bucket_index qf hash) >>= λ s.
        count_index_loop (rounds qf) qf hash 0 s

-- The loop of qf_get_count_using_ll_table: the count and the rank.
unfoldable pub count_loop : ℕ → Qf → ℕ → ℕ → ℕ → Outcome (ℕ × ℕ)
count_loop zero qf hash rank current_index = spin
count_loop (suc fuel) qf hash rank current_index = get_slot qf current_index >>= λ slot.
    elim (slot == hash_remainder qf hash) [
      | true ↦ get_slot_info qf current_index >>= λ info.
          elim (hash_ext qf hash info.ext_slots == info.ext) [
            | true ↦ done (info.count, rank)
            | false ↦
                let rank' : ℕ = (rank + 1) % 256 in
                elim (is_runend qf current_index) [
                  | true ↦ done (0, rank')
                  | false ↦
                      let next : ℕ = current_index + 1 + (info.ext_slots + info.count_slots) in
                      elim (ltb next qf.xnslots) [
                        | true ↦ count_loop fuel qf hash rank' next
                        | false ↦ done (0, rank')
                      ]
                ]
          ]
      | false ↦ elim (is_runend qf current_index) [
        | true ↦ done (0, rank)
        | false ↦ skip_extensions (rounds qf) qf (current_index + 1) >>= λ next.
            elim (ltb next qf.xnslots) [
              | true ↦ count_loop fuel qf hash rank next
              | false ↦ done (0, rank)
            ]
      ]
    ]

unfoldable pub qf_get_count_using_ll_table : Qf → ℕ → ℕ → Flags → Outcome (ℕ × ℕ)
unfolding count_loop query_start hash_key is_occupied
qf_get_count_using_ll_table qf key ret_minirun_rank flags =
    let hash : ℕ = hash_key qf key flags in
    if not (is_occupied qf (hash_bucket_index qf hash))
    then done (0, ret_minirun_rank)
    else query_start qf (hash_bucket_index qf hash) >>= λ s. count_loop (rounds qf) qf hash 0 s
