-- ===== src/Tests/Variants.antt =====
-- The adaptive filters and their reverse map, at small inputs.
use ski_rental_adaptive_qf.Prelude.{
  ℕ, ◌≡◌, refl, false, ◌||◌, Option, none, some, [], arith, ◌==◌, if◌then◌else◌, done, ◌>>=◌,
}
use ski_rental_adaptive_qf.Qf.{Qf}
use ski_rental_adaptive_qf.Variants.{
  key_is_hash_flag, QueryResult, query_filter, Filter, fetch_and_adapt,
}
use ski_rental_adaptive_qf.Qf.Query.Counts.{qf_get_count_using_ll_table_with_index}
use ski_rental_adaptive_qf.Variants.ReverseMaps.{
  mock_db, Cursor, IsLawful, WiredTiger, wt_commit_fingerprints, wt_insert_fingerprint,
  wt_get_fingerprint,
}
use ski_rental_adaptive_qf.Word.{count_ones}
use ski_rental_adaptive_qf.Row.{field}
use ski_rental_adaptive_qf.Qf.SlotInfo.{get_slot_info}
use ski_rental_adaptive_qf.Qf.Query.{qf_query}
use ski_rental_adaptive_qf.Qf.Query.Agree.{count_and_index, map_done}
use ski_rental_adaptive_qf.Tests.Filters.{one_item}
use ski_rental_adaptive_qf.Variants.Answers.{answer, in_byte, query_filter-qf_query}
use ski_rental_adaptive_qf.Variants.SkiRental.{
  IsRepeated, reported, false_positive, false_positives, ski_rental,
}
use ski_rental_adaptive_qf.Variants.ReverseMaps.Packing.{wt_get-commit}
use mathlib.Core.List.{not-mem-nil}
use mathlib.Core.List.Perm

-- Item 0x235 in slot 35 with count 2, which stands in slot 36.
abbrev counted_twice : Qf
counted_twice = record one_item {
  nelts = 2;
  noccupied_slots = 2;
  runends = λ i. (i == 35) || (i == 36);
  extensions = λ i. i == 36;
  remainders = λ i. (i == 140) || (i == 142) || (i == 145);
}

abbrev ski_filter : Filter mock_db
ski_filter = record { qf = counted_twice; reverse_map = 10; break_even_count = 5; full_point = 60 }

abbrev no_result : QueryResult
no_result = record {
  key_present = false;
  minirun_rank = 0;
  minirun_count = 0;
  hash = 0;
  hash_index = 0;
}

ski_filter-IsRepeated : IsRepeated mock_db ski_filter 0x1235 0 35 0 2
unfolding qf_get_count_using_ll_table_with_index count_ones field get_slot_info
ski_filter-IsRepeated = record {
  room = omega arith;
  free = λ j. refl;
  counted = refl;
  fits_slot = omega arith;
  fits_byte = omega arith;
  inside = omega arith;
  positive = omega arith;
  found = refl;
}

ski_rental_example :
    (f' : Filter mock_db) × (false_positives mock_db 3 0 ski_filter 0x1235 no_result 0
      ≡ done (0, f'))
    × (f'.reverse_map ≡ 10)
    × (f'.qf.noccupied_slots ≡ 2)
    × IsRepeated mock_db f' 0x1235 0 35 0 5
    × ((found : QueryResult)
        → false_positive mock_db f' 0x1235 found 0 ≡ (
            fetch_and_adapt mock_db f' 0x1235 (reported mock_db 0x1235 35 0 5) >>= λ (ret, f'').
            done (ret, reported mock_db 0x1235 35 0 5, f'')))
ski_rental_example =
    ski_rental mock_db 3 0 ski_filter 0x1235 0 35 0 2 no_result ski_filter-IsRepeated refl

query_filter-qf_query_example :
    map_done answer (query_filter one_item 0x1235 no_result 0)
    ≡ map_done (λ o. in_byte (count_and_index o)) (qf_query one_item 0x1235 key_is_hash_flag)
query_filter-qf_query_example = query_filter-qf_query one_item 0x1235 0 no_result

-- A cursor on a function.
abbrev map_cursor : Cursor
map_cursor = record {
  Table = ℕ → Option ℕ;
  insert = λ t k v j. if j == k then some v else t j;
  search = λ t j. t j;
}

map_cursor-IsLawful : IsLawful map_cursor
map_cursor-IsLawful = record { search-insert = λ t k v j. refl }

abbrev empty_map : WiredTiger map_cursor
empty_map = record { quotient_remainder_bits = 10; table = λ k. none; fingerprints = [] }

wt_get-commit_example :
    wt_get_fingerprint map_cursor
      (wt_commit_fingerprints map_cursor
        (λ l. l)
        (wt_insert_fingerprint map_cursor empty_map 0x235 1 77))
      0x235
      1
    ≡ some 77
wt_get-commit_example =
    wt_get-commit map_cursor map_cursor-IsLawful (λ l. l) empty_map 0x235 1 77 (λ l. Perm.refl l)
      (λ x m. absurd (not-mem-nil m))
