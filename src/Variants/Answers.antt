-- ===== src/Variants/Answers.antt =====
-- What queryFilter (src/variants/base_adaptive_filter.hpp) answers, against qf_query.
use ski_rental_adaptive_qf.Prelude.{
  ℕ, ◌%◌, ◌≡◌, refl, ap, ◌∙◌, Option, none, some, arith, ltb, if◌then◌else◌, Outcome, done, abort,
  spin, ◌>>=◌,
}
use ski_rental_adaptive_qf.Qf.{Qf}
use ski_rental_adaptive_qf.Variants.{key_is_hash_flag, QueryResult, with_count, query_filter}
use ski_rental_adaptive_qf.Qf.Query.Counts.{qf_get_count_using_ll_table_with_index}
use ski_rental_adaptive_qf.Qf.Query.{Found, qf_query}
use ski_rental_adaptive_qf.Qf.Query.Agree.{count_and_index, map_done, first, counts_agree}

-- The count and the slot that the answer gives for a key that is present.
abbrev pub answer : QueryResult → Option (ℕ × ℕ)
answer result = if result.key_present then some (result.minirun_count, result.hash_index) else none

-- An item as queryFilter sees it, which keeps the count in one byte.
abbrev pub in_byte : Option (ℕ × ℕ) → Option (ℕ × ℕ)
in_byte none = none
in_byte (some (count, index)) = if ltb 0 (count % 256) then some (count % 256, index) else none

answer-with_count :
    (key : ℕ) (result : QueryResult) (item : Option (ℕ × ℕ)) (rank : ℕ)
    → answer (with_count key result item rank) ≡ in_byte item
unfolding with_count
answer-with_count key result none rank = refl
answer-with_count key result (some (count, index)) rank = ground arith

answer-done :
    (m : Outcome (Option (ℕ × ℕ) × ℕ)) (key : ℕ) (result : QueryResult)
    → map_done answer (m >>= λ p. done (with_count key result p.0 p.1))
      ≡ map_done in_byte (map_done first m)
answer-done (done (item, rank)) key result = ap done (answer-with_count key result item rank)
answer-done abort key result = refl
answer-done spin key result = refl

map_done-map_done :
    (m : Outcome (Option Found))
    → map_done in_byte (map_done count_and_index m) ≡ map_done (λ o. in_byte (count_and_index o)) m
map_done-map_done (done o) = refl
map_done-map_done abort = refl
map_done-map_done spin = refl

-- queryFilter says that a key is present exactly if qf_query finds an item for it whose count is no
-- multiple of 256, and then gives that count modulo 256 and that item's slot.
pub query_filter-qf_query :
    (qf : Qf) (key unset : ℕ) (result : QueryResult)
    → map_done answer (query_filter qf key result unset)
      ≡ map_done (λ o. in_byte (count_and_index o)) (qf_query qf key key_is_hash_flag)
unfolding query_filter
query_filter-qf_query qf key unset result =
    answer-done (qf_get_count_using_ll_table_with_index qf key unset key_is_hash_flag) key result
    ∙ ap (map_done in_byte) (counts_agree qf key unset key_is_hash_flag).0
    ∙ map_done-map_done (qf_query qf key key_is_hash_flag)
