-- ===== src/Variants/Load.antt =====
-- bulkLoad of BaseAdaptiveFilter (src/variants/base_adaptive_filter.hpp): keys go into the filter and the
-- reverse map until the filter has a number of slots in use.
pub mod Fills
use ski_rental_adaptive_qf.Prelude.{
  ℕ, zero, suc, ◌+◌, ◌-◌, ◌*◌, ◌/◌, ◌%◌, ◌^◌, ◌≤◌, ◌<◌, min, bit_and, bit_or, bit_xor, ◌≡◌, refl,
  sym, ap, ◌∙◌, fun_ext, ◌≢◌, ◌↔◌, ◌⊎◌, inl, inr, Bool, true, false, ◌&&◌, ◌||◌, not, Option, none,
  some, List, [], ◌∷◌, ◌++◌, map, arith, dec_lt, ℕ_discrete, update, ltb, leb, ◌==◌, if◌then◌else◌,
  ltb→lt, lt→ltb, leb→le, ==_iff, Bool-cases, Outcome, done, abort, spin, ◌>>=◌, ◌>>◌, assert,
  >>=-eq-done, >>=-cong, >>=-done, assert-true, if-true, if-false, all-bind, all-done, all-if,
  all-assert, ℤ, pos, negsuc, sub_ℕ,
}
use ski_rental_adaptive_qf.Qf.{
  HashMode, hash_default, hash_invertible, hash_none, Flags, Qf, no_space, hash_key, rounds,
}
use ski_rental_adaptive_qf.Variants.ReverseMaps.{
  ReverseMap, mock_get_fingerprint, mock_db, Cursor, IsLawful, pack, WiredTiger, insert_all,
  wt_commit_fingerprints, wt_insert_fingerprint, wt_insert_and_commit_fingerprint,
  wt_get_fingerprint, wired_tiger,
}
use ski_rental_adaptive_qf.Variants.{
  key_is_hash_flag, QueryResult, with_count, query_filter, Filter, cannot_adapt, fetch_and_adapt,
  cqf_adapt, adaptive_adapt, coin_flip_adapt, count_up, ski_adapt,
}
use ski_rental_adaptive_qf.Qf.Adapt.{Ret, value, err_no_space, err_couldnt_lock}
use ski_rental_adaptive_qf.Qf.Insert.LlTable.{InsertResult, qf_insert_using_ll_table}

-- `QF_NO_LOCK | QF_KEY_IS_HASH`
abbrev pub load_flags : Flags
load_flags = record {
  no_lock = true;
  try_once_lock = false;
  wait_for_lock = false;
  key_is_hash = true;
}

module _ (M : ReverseMap) (container_resize : Qf → ℕ → Outcome (Option Qf)) where
  -- The call of the reverse map in the loop.
  abbrev store : Bool → M.State → InsertResult → ℕ → Option M.State
  store sort_and_insert map result key =
      if sort_and_insert
      then M.insert_fingerprint map result.minirun_id result.minirun_rank key
      else M.insert_and_commit_fingerprint map result.minirun_id result.minirun_rank key

  -- One round of the loop. The filter is none where bulkLoad returns -1. `result` is what the local
  -- variable holds before the insertion.
  unfoldable pub load_key : Bool → Filter M → ℕ → InsertResult → Outcome (Option (Filter M))
  unfolding qf_insert_using_ll_table
  load_key sort_and_insert f key result =
      qf_insert_using_ll_table container_resize f.qf key 1 result load_flags
      >>= λ (ret, result', qf'). done (elim ret [
        | value n ↦ elim (store sort_and_insert f.reverse_map result' key) [
          | some map ↦ some (record f { qf = qf'; reverse_map = map })
          | none ↦ none
        ]
        | err_no_space ↦ none
        | err_couldnt_lock ↦ none
      ])

  -- `for (i = 0; qf.metadata->noccupied_slots < numKeys; i++)`. The result is the filter, none for
  -- -1, and the number of keys read.
  unfoldable pub load_loop :
      ℕ → Bool → Filter M → (ℕ → ℕ) → ℕ → ℕ → InsertResult → Outcome (Option (Filter M) × ℕ)
  unfolding load_key
  load_loop zero sort_and_insert f keys num_keys i result = spin
  load_loop (suc fuel) sort_and_insert f keys num_keys i result =
      elim (ltb f.qf.noccupied_slots num_keys) [
        | true ↦ load_key sort_and_insert f (keys i) result >>= λ next. elim next [
          | some f' ↦ load_loop fuel sort_and_insert f' keys num_keys (i + 1) result
          | none ↦ done (none, i + 1)
        ]
        | false ↦ done (some f, i)
      ]

  -- The reverse map is committed, closed and opened again, which keeps what it holds.
  unfoldable pub bulk_load :
      Bool → Filter M → (ℕ → ℕ) → ℕ → InsertResult → Outcome (Option (Filter M) × ℕ)
  unfolding load_loop
  bulk_load sort_and_insert f keys num_keys result =
      load_loop (num_keys + 1) sort_and_insert f keys num_keys 0 result >>= λ (loaded, i). done (
        elim loaded [
          | some f' ↦ some (record f' { reverse_map = M.commit_fingerprints f'.reverse_map })
          | none ↦ none
        ],
        i,
      )
