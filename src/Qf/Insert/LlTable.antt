-- ===== src/Qf/Insert/LlTable.antt =====
-- insert_using_ll_table and qf_insert_using_ll_table of src/gqf.c, the insertion of the filters that
-- keep their keys in a reverse map: equal remainders are not told apart but ranked.
use ski_rental_adaptive_qf.Prelude.{
  ℕ, zero, suc, ◌+◌, Bool, true, false, ◌&&◌, not, Option, none, some, ltb, leb, ◌==◌,
  if◌then◌else◌, Outcome, done, spin, ◌>>=◌, ◌>>◌, assert,
}
use ski_rental_adaptive_qf.Hash.{low_bits}
use ski_rental_adaptive_qf.Qf.{Flags, Qf, hash_key, rounds}
use ski_rental_adaptive_qf.Qf.Bits.{
  is_runend, is_occupied, is_extension_or_counter, get_slot, might_be_empty,
}
use ski_rental_adaptive_qf.Qf.Locks.{qf_lock, unlock_unless}
use ski_rental_adaptive_qf.Qf.Runs.{skip_extensions, run_end, run_start}
use ski_rental_adaptive_qf.Qf.Adapt.{Ret, value, err_no_space, err_couldnt_lock}
use ski_rental_adaptive_qf.Qf.Query.{hash_remainder, fingerprint_bits}
use ski_rental_adaptive_qf.Qf.Insert.{
  insert_bucket, insert_empty_slot, insert_new_run, insert_in_run, add_count, make_space,
}

-- `qf_insert_result`
pub record InsertResult : Type 0 where
  pub hash : ℕ
  pub minirun_id : ℕ
  pub minirun_rank : ℕ
  pub minirun_existed : Bool

-- The loop that ranks the new item: the slots with the remainder, counted up to the run end.
unfoldable pub rank_minirun : ℕ → Qf → ℕ → ℕ → ℕ → Outcome ℕ
rank_minirun zero qf remainder temp_index rank = spin
rank_minirun (suc fuel) qf remainder temp_index rank = elim (is_runend qf temp_index) [
  | true ↦ done (rank + 1)
  | false ↦ skip_extensions (rounds qf) qf temp_index >>= λ last.
      get_slot qf (last + 1) >>= λ temp_remainder. elim (temp_remainder == remainder) [
        | true ↦ rank_minirun fuel qf remainder (last + 1) (rank + 1)
        | false ↦ done (rank + 1)
      ]
]

-- How the walk ends: at a place, with the rank if the minirun existed, or beyond the last slot.
pub data RankWalk : Type 0 where
  place : (insert_index current_index : ℕ) → (was_runend : Bool) → Option ℕ → RankWalk
  ran_off : RankWalk

unfoldable pub ll_walk : ℕ → Qf → ℕ → ℕ → Outcome RankWalk
unfolding rank_minirun
ll_walk zero qf hash current_index = spin
ll_walk (suc fuel) qf hash current_index = get_slot qf current_index >>= λ current_remainder.
    elim (leb (hash_remainder qf hash) current_remainder) [
      | true ↦
          (if current_remainder == hash_remainder qf hash
            then (rank_minirun (rounds qf) qf (hash_remainder qf hash) current_index 0 >>= λ rank.
                done (some rank))
            else done none)
          >>= λ rank. done (place current_index current_index false rank)
      | false ↦ elim (is_runend qf current_index) [
        | true ↦ skip_extensions (rounds qf) qf (current_index + 1) >>= λ insert_index.
            done (place insert_index current_index true none)
        | false ↦ skip_extensions (rounds qf) qf (current_index + 1) >>= λ next.
            elim (ltb next qf.xnslots) [ true ↦ ll_walk fuel qf hash next | false ↦ done ran_off ]
      ]
    ]

unfoldable pub with_rank : InsertResult → Option ℕ → InsertResult
with_rank result none = result
with_rank result (some rank) = record result { minirun_existed = true; minirun_rank = rank }

-- The body of insert_using_ll_table between the locks.
unfoldable pub ll_body : Qf → InsertResult → ℕ → Outcome (Ret × InsertResult × Qf)
unfolding ll_walk insert_empty_slot insert_new_run insert_in_run add_count run_end run_start
    with_rank might_be_empty is_occupied is_extension_or_counter
ll_body qf result count = do
  let bucket : ℕ = insert_bucket qf result.hash
  let remainder : ℕ = hash_remainder qf result.hash
  runend_index ← run_end qf bucket
  if might_be_empty qf bucket && (runend_index == bucket)
      then (do
        qf₁ ← insert_empty_slot qf bucket remainder 1
        qf₂ ← add_count qf₁ bucket result.hash count
        done (value 0, result, qf₂))
      else (do
        runstart_index ← run_start qf bucket
        if not (is_occupied qf bucket)
            then (do
              qf₁ ← insert_new_run qf bucket runstart_index remainder 1
              qf₂ ← add_count qf₁ bucket result.hash count
              done (value 0, result, qf₂))
            else (do
              assert (not (is_extension_or_counter qf runstart_index))
              walk ← ll_walk (rounds qf) qf result.hash runstart_index
              elim walk [
                | ran_off ↦ done (err_no_space, result, qf)
                | place insert_index current_index was_runend rank ↦
                    insert_in_run qf bucket insert_index current_index was_runend remainder count
                    >>= λ qf₁. add_count qf₁ insert_index result.hash count >>= λ qf₂.
                        done (value 0, with_rank result rank, qf₂)
              ]))

unfoldable pub insert_using_ll_table :
    Qf → InsertResult → ℕ → Flags → Outcome (Ret × InsertResult × Qf)
unfolding ll_body qf_lock unlock_unless
insert_using_ll_table qf result count flags = do
  let bucket : ℕ = insert_bucket qf result.hash
  (got, qf₁) ← (if flags.no_lock then done (true, qf) else qf_lock qf bucket true flags)
  if not got then done (err_couldnt_lock, result, qf₁) else (do
    (ret, result', qf₂) ← ll_body qf₁ result count
    done (ret, result', unlock_unless flags qf₂ bucket true))

unfoldable pub qf_insert_using_ll_table :
    (Qf → ℕ → Outcome (Option Qf))
    → Qf
    → ℕ
    → ℕ
    → InsertResult
    → Flags
    → Outcome (Ret × InsertResult × Qf)
unfolding make_space insert_using_ll_table hash_key
qf_insert_using_ll_table container_resize qf key count result flags = do
  space ← make_space container_resize qf
  elim space [
    | none ↦ done (err_no_space, result, qf)
    | some qf' ↦
        if count == 0
        then done (value 0, result, qf')
        else insert_using_ll_table qf'
            (record {
              hash = hash_key qf' key flags;
              minirun_id = low_bits (hash_key qf' key flags) (fingerprint_bits qf');
              minirun_rank = 0;
              minirun_existed = false;
            })
            count flags
  ]
