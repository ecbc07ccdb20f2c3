-- ===== src/Variants/Hybrid.antt =====
-- HybridSkiQF (src/variants/hybrid_skiqf.hpp), which adapts only while false positives repeat: it counts
-- them in windows of queries with a Bloom filter and keeps moving averages.
use ski_rental_adaptive_qf.Prelude.{
  ℕ, zero, suc, ◌+◌, ◌-◌, ◌*◌, ◌/◌, ◌%◌, ◌^◌, ◌≤◌, ◌<◌, min, bit_and, bit_or, bit_xor, ◌≡◌, refl,
  sym, ap, ◌∙◌, fun_ext, ◌≢◌, ◌↔◌, ◌⊎◌, inl, inr, Bool, true, false, ◌&&◌, ◌||◌, not, Option, none,
  some, List, [], ◌∷◌, ◌++◌, map, arith, dec_lt, ℕ_discrete, update, ltb, leb, ◌==◌, if◌then◌else◌,
  ltb→lt, lt→ltb, leb→le, ==_iff, Bool-cases, Outcome, done, abort, spin, ◌>>=◌, ◌>>◌, assert,
  >>=-eq-done, >>=-cong, >>=-done, assert-true, if-true, if-false, all-bind, all-done, all-if,
  all-assert, ℤ, pos, negsuc, sub_ℕ,
}
use ski_rental_adaptive_qf.Hash.{add64, sub64, mul64, not64, shl, shr, low_bits}
use ski_rental_adaptive_qf.Qf.{
  HashMode, hash_default, hash_invertible, hash_none, Flags, Qf, no_space, hash_key, rounds,
}
use ski_rental_adaptive_qf.Variants.ReverseMaps.{
  ReverseMap, mock_get_fingerprint, mock_db, Cursor, IsLawful, pack, WiredTiger, insert_all,
  wt_commit_fingerprints, wt_insert_fingerprint, wt_insert_and_commit_fingerprint,
  wt_get_fingerprint, wired_tiger,
}
use ski_rental_adaptive_qf.Variants.{
  key_is_hash_flag, QueryResult, with_count, query_filter, Filter, cannot_adapt, fetch_and_adapt,
  cqf_adapt, adaptive_adapt, coin_flip_adapt, count_up, ski_adapt,
}
use ski_rental_adaptive_qf.Qf.Query.{qf_query_using_ll_table_with_ext_len}
use ski_rental_adaptive_qf.Qf.Adapt.{qf_adapt_using_ll_table}
pub mod Windows
pub mod Repeats

-- The doubles of the moving averages: 0.0, `(1.0 - smoothingFactor) * avg + smoothingFactor * n`, and
-- `avg > threshold`.
pub record Average : Type 1 where
  pub Number : Type 0
  pub zero_average : Number
  pub smooth : Number → ℕ → Number
  pub above : Number → ℕ → Bool

-- What the code relies on: an average of zeros is zero, and zero is above no threshold.
pub record IsSmooth (A : Average) : Type 0 where
  pub smooth-zero : A.smooth A.zero_average 0 ≡ A.zero_average
  pub above-zero : (t : ℕ) → A.above A.zero_average t ≡ false

abbrev pub window_size : ℕ
window_size = 1000000

abbrev pub repeated_fp_threshold : ℕ
repeated_fp_threshold = 6

-- The four 16-bit pieces of a key, which index the Bloom filter.
abbrev pub piece : ℕ → ℕ → ℕ
piece key i = low_bits (shr key (16 * i)) 16

-- `repeatDetectorFilter.set` for the four pieces of a key.
abbrev pub set_pieces : (ℕ → Bool) → ℕ → ℕ → Bool
set_pieces bits key =
    update (update (update (update bits (piece key 0) true) (piece key 1) true) (piece key 2) true)
      (piece key 3) true

module _ (M : ReverseMap) (A : Average) where
  pub record HybridSkiQf : Type 0 where
    pub base : Filter M
    pub quotient_remainder_bits : ℕ
    pub repeat_detector_filter : ℕ → Bool
    pub window_progress : ℕ
    pub window_repeat_fps : ℕ
    pub window_corrected_fps : ℕ
    pub avg_repeat_fps_per_window : A.Number
    pub avg_corrected_fps_per_window : A.Number
    pub num_adapts : ℕ
    pub corrected_fp_threshold : ℕ

  -- `if (windowProgress == windowSize)`: the averages take in the window, and a new one begins.
  unfoldable pub close_window : HybridSkiQf → HybridSkiQf
  close_window h =
      if h.window_progress == window_size
      then record h {
        avg_repeat_fps_per_window = A.smooth h.avg_repeat_fps_per_window h.window_repeat_fps;
        avg_corrected_fps_per_window =
            A.smooth h.avg_corrected_fps_per_window h.window_corrected_fps;
        corrected_fp_threshold =
            2 * window_size * h.num_adapts % 2 ^ 64 / 2 ^ h.quotient_remainder_bits;
        window_progress = 0;
        window_repeat_fps = 0;
        window_corrected_fps = 0;
        repeat_detector_filter = λ i. false;
      }
      else h

  -- What queryFilter makes of the rank and the extension length that the query returned. A rank of
  -- -1 is kept as its 32 bits.
  unfoldable pub after_query :
      HybridSkiQf → ℕ → QueryResult → Option ℕ → ℕ → QueryResult × HybridSkiQf
  unfolding close_window
  after_query h query_key result (some rank) ext_len =
      (record result { key_present = true; hash = query_key; minirun_rank = rank }, h)
  after_query h query_key result none ext_len = (
    record result { key_present = false; hash = query_key; minirun_rank = 2 ^ 32 - 1 },
    close_window (record h {
      window_progress = h.window_progress + 1;
      window_corrected_fps =
          if ltb 0 ext_len then h.window_corrected_fps + 1 else h.window_corrected_fps;
    }),
  )

  unfoldable pub hybrid_query_filter :
      HybridSkiQf → ℕ → QueryResult → Outcome (QueryResult × HybridSkiQf)
  unfolding after_query
  hybrid_query_filter h query_key result =
      qf_query_using_ll_table_with_ext_len h.base.qf query_key 0 key_is_hash_flag
      >>= λ (rank, ext_len). done (after_query h query_key result rank ext_len)

  -- `isRepeatedFp`: the Bloom filter has all four pieces of the key.
  unfoldable pub is_repeated_fp : HybridSkiQf → ℕ → Bool
  is_repeated_fp h key =
      h.repeat_detector_filter (piece key 0)
      && h.repeat_detector_filter (piece key 1)
      && h.repeat_detector_filter (piece key 2)
      && h.repeat_detector_filter (piece key 3)

  -- The false positive is counted as a repeated one, or noted.
  unfoldable pub detect : HybridSkiQf → ℕ → HybridSkiQf
  unfolding is_repeated_fp
  detect h key =
      if is_repeated_fp h key
      then record h { window_repeat_fps = h.window_repeat_fps + 1 }
      else record h { repeat_detector_filter = set_pieces h.repeat_detector_filter key }

  -- The first part of adapt, up to the end of the window.
  unfoldable pub note_false_positive : HybridSkiQf → ℕ → HybridSkiQf
  unfolding close_window detect
  note_false_positive h key =
      let noted : HybridSkiQf = detect h key in
      close_window (record noted { window_progress = noted.window_progress + 1 })

  -- One of the averages is above its threshold.
  abbrev pub is_worthwhile : HybridSkiQf → Bool
  is_worthwhile h =
      A.above h.avg_repeat_fps_per_window repeated_fp_threshold
      || A.above h.avg_corrected_fps_per_window h.corrected_fp_threshold

  -- The key is fetched and the fingerprint adapted. A fetch that fails leaves the local variable
  -- origKey as it was, which is an argument.
  unfoldable pub force_adapt : HybridSkiQf → ℕ → QueryResult → ℕ → Outcome (ℤ × HybridSkiQf)
  unfolding qf_adapt_using_ll_table
  force_adapt h query_key result unset =
      let orig_key : ℕ =
        elim (M.get_fingerprint h.base.reverse_map result.hash result.minirun_rank) [
          | some key ↦ key
          | none ↦ unset
        ] in
      qf_adapt_using_ll_table h.base.qf orig_key query_key result.minirun_rank key_is_hash_flag
      >>= λ (_, qf').
          done (
            pos 1,
            record h { base = record h.base { qf = qf' }; num_adapts = add64 h.num_adapts 1 },
          )

  unfoldable pub hybrid_adapt : HybridSkiQf → ℕ → QueryResult → ℕ → Outcome (ℤ × HybridSkiQf)
  unfolding note_false_positive force_adapt
  hybrid_adapt h query_key result unset =
      let noted : HybridSkiQf = note_false_positive h query_key in
      if is_worthwhile noted then force_adapt noted query_key result unset else done (pos 0, noted)
