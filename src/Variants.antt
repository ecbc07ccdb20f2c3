-- ===== src/Variants.antt =====
-- The adaptive filters of src/variants: a quotient filter, the reverse map that has the key behind
-- each fingerprint, and what each variant does when a query turns out to be a false positive.
use ski_rental_adaptive_qf.Prelude.{
  ℕ, zero, suc, ◌+◌, ◌-◌, ◌*◌, ◌/◌, ◌%◌, ◌^◌, ◌≤◌, ◌<◌, min, bit_and, bit_or, bit_xor, ◌≡◌, refl,
  sym, ap, ◌∙◌, fun_ext, ◌≢◌, ◌↔◌, ◌⊎◌, inl, inr, Bool, true, false, ◌&&◌, ◌||◌, not, Option, none,
  some, List, [], ◌∷◌, ◌++◌, map, arith, dec_lt, ℕ_discrete, update, ltb, leb, ◌==◌, if◌then◌else◌,
  ltb→lt, lt→ltb, leb→le, ==_iff, Bool-cases, Outcome, done, abort, spin, ◌>>=◌, ◌>>◌, assert,
  >>=-eq-done, all-bind, all-done, all-if, all-assert, ℤ, pos, negsuc, sub_ℕ,
}
use ski_rental_adaptive_qf.Qf.{
  HashMode, hash_default, hash_invertible, hash_none, Flags, Qf, no_space, hash_key, rounds,
}
use ski_rental_adaptive_qf.Hash.{add64, sub64, mul64, not64, shl, shr, low_bits}
use ski_rental_adaptive_qf.Qf.Query.Counts.{qf_get_count_using_ll_table_with_index}
use ski_rental_adaptive_qf.Qf.Adapt.{qf_adapt_using_ll_table}
use ski_rental_adaptive_qf.Qf.Extend.{insert_and_extend}
use ski_rental_adaptive_qf.Variants.ReverseMaps.{ReverseMap}
pub mod ReverseMaps
pub mod SkiRental
pub mod Hybrid
pub mod Load
pub mod Answers
use ski_rental_adaptive_qf.Prelude.{
  ℕ, zero, suc, ◌+◌, ◌-◌, ◌*◌, ◌/◌, ◌%◌, ◌^◌, ◌≤◌, ◌<◌, min, bit_and, bit_or, bit_xor, ◌≡◌, refl,
  sym, ap, ◌∙◌, fun_ext, ◌≢◌, ◌↔◌, ◌⊎◌, inl, inr, Bool, true, false, ◌&&◌, ◌||◌, not, Option, none,
  some, List, [], ◌∷◌, ◌++◌, map, arith, dec_lt, ℕ_discrete, update, ltb, leb, ◌==◌, if◌then◌else◌,
  ltb→lt, lt→ltb, leb→le, ==_iff, Bool-cases, Outcome, done, abort, spin, ◌>>=◌, ◌>>◌, assert,
  >>=-eq-done, all-bind, all-done, all-if, all-assert, ℤ, pos, negsuc, sub_ℕ,
}
use ski_rental_adaptive_qf.Qf.{
  HashMode, hash_default, hash_invertible, hash_none, Flags, Qf, no_space, hash_key, rounds,
}
use ski_rental_adaptive_qf.Hash.{add64, sub64, mul64, not64, shl, shr, low_bits}
use ski_rental_adaptive_qf.Qf.Query.Counts.{qf_get_count_using_ll_table_with_index}
use ski_rental_adaptive_qf.Qf.Adapt.{qf_adapt_using_ll_table}
use ski_rental_adaptive_qf.Qf.Extend.{insert_and_extend}
use ski_rental_adaptive_qf.Variants.ReverseMaps.{ReverseMap}

-- `QF_KEY_IS_HASH` alone
abbrev pub key_is_hash_flag : Flags
key_is_hash_flag = record {
  no_lock = false;
  try_once_lock = false;
  wait_for_lock = false;
  key_is_hash = true;
}

-- `QFilterQueryResult`
pub record QueryResult : Type 0 where
  pub key_present : Bool
  pub minirun_rank : ℕ
  pub minirun_count : ℕ
  pub hash : ℕ
  pub hash_index : ℕ

-- What queryFilter makes of the count, slot and rank that the query returned. The count goes through
-- a uint8_t, as the rank does in the query.
unfoldable pub with_count : ℕ → QueryResult → Option (ℕ × ℕ) → ℕ → QueryResult
with_count query_key result none rank = record result {
  key_present = false;
  hash = query_key;
  minirun_rank = rank;
}
with_count query_key result (some (count, index)) rank =
    if ltb 0 (count % 256)
    then record {
      key_present = true;
      minirun_rank = rank;
      minirun_count = count % 256;
      hash = query_key;
      hash_index = index;
    }
    else record result { key_present = false; hash = query_key; minirun_rank = rank }

-- The result of queryFilter. The rank that the local variable holds at first is an argument, and so
-- is the result that is written over.
unfoldable pub query_filter : Qf → ℕ → QueryResult → ℕ → Outcome QueryResult
unfolding with_count
query_filter qf query_key result unset = do
  (item, rank) ← qf_get_count_using_ll_table_with_index qf query_key unset key_is_hash_flag
  done (with_count query_key result item rank)

module _ (M : ReverseMap) where
  -- `BaseAdaptiveFilter`: the fields that its operations use. `full_point` is the number of slots at
  -- which the filter stops to adapt.
  pub record Filter : Type 0 where
    pub qf : Qf
    pub reverse_map : M.State
    pub break_even_count : ℕ
    pub full_point : ℕ

  -- `noccupied_slots >= fullPoint`
  abbrev pub cannot_adapt : Filter → Bool
  cannot_adapt f = leb f.full_point f.qf.noccupied_slots

  -- The key behind the fingerprint is fetched and the fingerprint made longer. What the adaptation
  -- returns is not looked at.
  unfoldable pub fetch_and_adapt : Filter → ℕ → QueryResult → Outcome (ℤ × Filter)
  unfolding qf_adapt_using_ll_table
  fetch_and_adapt f query_key result =
      elim (M.get_fingerprint f.reverse_map result.hash result.minirun_rank) [
        | none ↦ done (negsuc 0, f)
        | some orig_key ↦
            qf_adapt_using_ll_table f.qf orig_key query_key result.minirun_rank key_is_hash_flag
            >>= λ (_, qf'). done (pos 1, record f { qf = qf' })
      ]

  -- `adapt` of NonAdaptiveFilter
  unfoldable pub cqf_adapt : Filter → ℕ → QueryResult → Outcome (ℤ × Filter)
  cqf_adapt f query_key result = done (pos 0, f)

  -- `adapt` of AdaptiveQF
  unfoldable pub adaptive_adapt : Filter → ℕ → QueryResult → Outcome (ℤ × Filter)
  unfolding fetch_and_adapt
  adaptive_adapt f query_key result =
      if cannot_adapt f then done (negsuc 0, f) else fetch_and_adapt f query_key result

  -- `adapt` of CoinFlipAdaptiveFilter. The coin is an argument.
  unfoldable pub coin_flip_adapt : Bool → Filter → ℕ → QueryResult → Outcome (ℤ × Filter)
  unfolding fetch_and_adapt
  coin_flip_adapt coin f query_key result =
      if cannot_adapt f
      then done (negsuc 0, f)
      else if coin
      then fetch_and_adapt f query_key result
      else done (pos 0, f)

  -- The branch of SkiQF below the break-even count: the item's counter goes up by 1. What
  -- insert_and_extend returns is not looked at.
  unfoldable pub count_up : Filter → QueryResult → Outcome (ℤ × Filter)
  unfolding insert_and_extend
  count_up f result =
      insert_and_extend f.qf result.hash_index result.hash 1 result.hash key_is_hash_flag
      >>= λ (_, qf'). done (pos 0, record f { qf = qf' })

  -- `adapt` of SkiQF
  unfoldable pub ski_adapt : Filter → ℕ → QueryResult → Outcome (ℤ × Filter)
  unfolding fetch_and_adapt count_up
  ski_adapt f query_key result =
      if cannot_adapt f
      then done (negsuc 0, f)
      else if ltb result.minirun_count f.break_even_count
      then count_up f result
      else fetch_and_adapt f query_key result
