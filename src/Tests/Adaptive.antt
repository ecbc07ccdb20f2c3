-- ===== src/Tests/Adaptive.antt =====
-- HybridSkiQF and bulkLoad at small inputs.
use ski_rental_adaptive_qf.Qf.Query.{qf_query_using_ll_table_with_ext_len}
use ski_rental_adaptive_qf.Prelude.{
  ℕ, ◌+◌, ◌*◌, ◌/◌, ◌≡◌, refl, false, Option, none, some, List, [], ◌∷◌, arith, ltb, Outcome, done,
  abort, spin,
}
use ski_rental_adaptive_qf.Qf.{Qf}
use ski_rental_adaptive_qf.Variants.{QueryResult, Filter}
use ski_rental_adaptive_qf.Variants.ReverseMaps.{mock_db}
use ski_rental_adaptive_qf.Variants.Hybrid.{Average, IsSmooth, HybridSkiQf}
use ski_rental_adaptive_qf.Variants.Load.{bulk_load}
use ski_rental_adaptive_qf.Word.{count_ones}
use ski_rental_adaptive_qf.Qf.Insert.LlTable.{InsertResult}
use ski_rental_adaptive_qf.Tests.Filters.{empty_qf}
use ski_rental_adaptive_qf.Variants.Hybrid.Windows.{
  IsInWindow, Query, query, adapt_to, run_queries, run_queries-IsInWindow,
}
use ski_rental_adaptive_qf.Variants.Hybrid.Repeats.{IsQuiet}
use ski_rental_adaptive_qf.Variants.Load.Fills.{bulk_load-fills}

-- Averages in whole numbers.
abbrev whole_average : Average
whole_average = record {
  Number = ℕ;
  zero_average = 0;
  smooth = λ avg n. (3 * avg + 7 * n) / 10;
  above = λ avg t. ltb t avg;
}

whole_average-IsSmooth : IsSmooth whole_average
whole_average-IsSmooth = record { smooth-zero = refl; above-zero = λ t. ground arith }

abbrev empty_filter : Filter mock_db
empty_filter = record { qf = empty_qf; reverse_map = 10; break_even_count = 5; full_point = 60 }

abbrev hybrid : HybridSkiQf mock_db whole_average
hybrid = record {
  base = empty_filter;
  quotient_remainder_bits = 10;
  repeat_detector_filter = λ i. false;
  window_progress = 0;
  window_repeat_fps = 0;
  window_corrected_fps = 0;
  avg_repeat_fps_per_window = 0;
  avg_corrected_fps_per_window = 0;
  num_adapts = 0;
  corrected_fp_threshold = 0;
}

abbrev blank : QueryResult
blank = record {
  key_present = false;
  minirun_rank = 0;
  minirun_count = 0;
  hash = 0;
  hash_index = 0;
}

abbrev queries : List Query
queries = query 0x1235 ∷ adapt_to 0x1235 blank 0 ∷ adapt_to 0x1235 blank 0 ∷ []

abbrev hybrid_after : HybridSkiQf mock_db whole_average
unfolding run_queries count_ones qf_query_using_ll_table_with_ext_len
hybrid_after = elim (run_queries mock_db whole_average hybrid blank queries) [
  | done h ↦ h
  | abort ↦ hybrid
  | spin ↦ hybrid
]

one_repeat : (hybrid_after.window_progress ≡ 3) × (hybrid_after.window_repeat_fps ≡ 1)
unfolding run_queries count_ones qf_query_using_ll_table_with_ext_len
one_repeat = (refl, refl)

run_queries-IsInWindow_example : IsInWindow mock_db whole_average hybrid_after
unfolding run_queries count_ones qf_query_using_ll_table_with_ext_len
run_queries-IsInWindow_example =
    run_queries-IsInWindow mock_db whole_average hybrid blank queries {h' = hybrid_after}
      (omega arith, omega arith) refl

hybrid-IsQuiet : IsQuiet mock_db whole_average hybrid
hybrid-IsQuiet = record {
  no_repeats = refl;
  no_corrected = refl;
  average_repeat = refl;
  average_corrected = refl;
}

abbrev no_resize : Qf → ℕ → Outcome (Option Qf)
no_resize qf nslots = done none

abbrev unwritten : InsertResult
unwritten = record { hash = 0; minirun_id = 0; minirun_rank = 0; minirun_existed = false }

-- Keys 0x1235, 0x1249 and so on, each in a bucket of its own.
abbrev keys : ℕ → ℕ
keys i = 0x1235 + 20 * i

abbrev loaded : Filter mock_db
unfolding bulk_load count_ones
loaded = elim (bulk_load mock_db no_resize false empty_filter keys 2 unwritten) [
  | done r ↦ elim r.0 [ some f ↦ f | none ↦ empty_filter ]
  | abort ↦ empty_filter
  | spin ↦ empty_filter
]

abbrev two : ℕ
two = 2

bulk_load-fills_example :
    (loaded.qf.noccupied_slots ≡ two) × (empty_filter.qf.noccupied_slots + two ≡ two)
unfolding bulk_load count_ones
bulk_load-fills_example =
    bulk_load-fills mock_db no_resize false empty_filter keys two unwritten {f' = loaded} {n = two}
      refl (omega arith) refl
