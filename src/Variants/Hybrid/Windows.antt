-- ===== src/Variants/Hybrid/Windows.antt =====
-- The windows of HybridSkiQF (src/variants/hybrid_skiqf.hpp).
use ski_rental_adaptive_qf.Prelude.{
  ℕ, ◌+◌, ◌≤◌, ◌<◌, ◌≡◌, Option, none, some, List, [], ◌∷◌, arith, ltb, if◌then◌else◌, Outcome,
  done, ◌>>=◌, >>=-eq-done, all-bind, all-done, all-if, ℤ, pos,
}
use ski_rental_adaptive_qf.Hash.{add64}
use ski_rental_adaptive_qf.Variants.ReverseMaps.{ReverseMap}
use ski_rental_adaptive_qf.Variants.{key_is_hash_flag, QueryResult}
use ski_rental_adaptive_qf.Variants.Hybrid.{
  Average, window_size, HybridSkiQf, close_window, after_query, hybrid_query_filter, detect,
  is_worthwhile, force_adapt, note_false_positive, hybrid_adapt,
}
use ski_rental_adaptive_qf.Qf.Query.{qf_query_using_ll_table_with_ext_len}
use ski_rental_adaptive_qf.Qf.Adapt.{qf_adapt_using_ll_table}

-- A query of a key, and adapt with what it found.
pub data Query : Type 0 where
  query : ℕ → Query
  adapt_to : ℕ → QueryResult → ℕ → Query

module _ (M : ReverseMap) (A : Average) where
  -- A window is not over, and has no more repeated and corrected false positives than queries.
  abbrev pub IsInWindow : HybridSkiQf M A → Type 0
  IsInWindow h =
      (h.window_progress < window_size)
      × (h.window_repeat_fps + h.window_corrected_fps ≤ h.window_progress)

  close_window-IsInWindow :
      (h : HybridSkiQf M A)
      → h.window_progress ≤ window_size
      → h.window_repeat_fps + h.window_corrected_fps ≤ h.window_progress
      → IsInWindow (close_window M A h)
  unfolding close_window
  close_window-IsInWindow h p q = ground arith

  detect-IsInWindow :
      (h : HybridSkiQf M A) (key : ℕ)
      → IsInWindow h
      → ((detect M A h key).window_progress ≡ h.window_progress)
        × ((detect M A h key).window_repeat_fps + (detect M A h key).window_corrected_fps
            ≤ h.window_progress + 1)
  unfolding detect
  detect-IsInWindow h key w = ground arith

  note-IsInWindow :
      (h : HybridSkiQf M A) (key : ℕ) → IsInWindow h → IsInWindow (note_false_positive M A h key)
  unfolding note_false_positive
  note-IsInWindow h key w =
      let (same, few) = detect-IsInWindow h key w in
      close_window-IsInWindow
        (record (detect M A h key) { window_progress = (detect M A h key).window_progress + 1 })
        (omega (arith, w.0, same)) (omega (arith, few, same))

  force_adapt-IsInWindow :
      (h : HybridSkiQf M A) (key : ℕ) (result : QueryResult) (unset : ℕ)
      → IsInWindow h
      → (p : ℤ × HybridSkiQf M A) → force_adapt M A h key result unset ≡ done p
      → IsInWindow p.1
  unfolding force_adapt
  force_adapt-IsInWindow h key result unset w =
      all-bind (λ p. IsInWindow p.1)
        (qf_adapt_using_ll_table h.base.qf _ key result.minirun_rank key_is_hash_flag) _
        (λ a e.
          all-done (λ p. IsInWindow p.1)
            (
              pos 1,
              record h { base = record h.base { qf = a.1 }; num_adapts = add64 h.num_adapts 1 },
            )
            w)

  adapt-IsInWindow :
      (h : HybridSkiQf M A) (key : ℕ) (result : QueryResult) (unset : ℕ) {ret : ℤ}
      {h' : HybridSkiQf M A}
      → IsInWindow h
      → hybrid_adapt M A h key result unset ≡ done (ret, h')
      → IsInWindow h'
  unfolding hybrid_adapt
  adapt-IsInWindow h key result unset {ret} {h'} w e =
      let noted = note-IsInWindow h key w in
      all-if (λ p. IsInWindow p.1) (is_worthwhile M A (note_false_positive M A h key))
        (force_adapt M A (note_false_positive M A h key) key result unset)
        (done (pos 0, note_false_positive M A h key))
        (λ t. force_adapt-IsInWindow (note_false_positive M A h key) key result unset noted)
        (λ t. all-done (λ p. IsInWindow p.1) (pos 0, note_false_positive M A h key) noted) (ret, h')
        e

  after_query-IsInWindow :
      (h : HybridSkiQf M A) (key : ℕ) (result : QueryResult) (rank : Option ℕ) (ext_len : ℕ)
      → IsInWindow h
      → IsInWindow (after_query M A h key result rank ext_len).1
  unfolding after_query
  after_query-IsInWindow h key result (some rank) ext_len w = w
  after_query-IsInWindow h key result none ext_len w =
      close_window-IsInWindow
        (record h {
          window_progress = h.window_progress + 1;
          window_corrected_fps =
              if ltb 0 ext_len then h.window_corrected_fps + 1 else h.window_corrected_fps;
        })
        (omega (arith, w.0)) (ground (arith, w.1))

  query_filter-IsInWindow :
      (h : HybridSkiQf M A) (key : ℕ) (result found : QueryResult) {h' : HybridSkiQf M A}
      → IsInWindow h
      → hybrid_query_filter M A h key result ≡ done (found, h')
      → IsInWindow h'
  unfolding hybrid_query_filter
  query_filter-IsInWindow h key result found {h'} w e =
      all-bind (λ p. IsInWindow p.1)
        (qf_query_using_ll_table_with_ext_len h.base.qf key 0 key_is_hash_flag) _
        (λ a q.
          all-done (λ p. IsInWindow p.1) (after_query M A h key result a.0 a.1)
            (after_query-IsInWindow h key result a.0 a.1 w))
        (found, h') e

  -- Runs of queryFilter and adapt.
  unfoldable pub run_queries :
      HybridSkiQf M A → QueryResult → List Query → Outcome (HybridSkiQf M A)
  unfolding hybrid_query_filter hybrid_adapt
  run_queries h result [] = done h
  run_queries h result (query key ∷ queries) =
      hybrid_query_filter M A h key result >>= λ (found, h'). run_queries h' found queries
  run_queries h result (adapt_to key found unset ∷ queries) =
      hybrid_adapt M A h key found unset >>= λ (_, h'). run_queries h' result queries

  -- Whatever calls of queryFilter and adapt run, the window stays in order: it is closed as soon as it
  -- has window_size queries, and the repeated and the corrected false positives that it counts are
  -- together no more than its queries.
  pub run_queries-IsInWindow :
      (h : HybridSkiQf M A) (result : QueryResult) (queries : List Query) {h' : HybridSkiQf M A}
      → IsInWindow h
      → run_queries h result queries ≡ done h'
      → IsInWindow h'
  unfolding run_queries
  run_queries-IsInWindow h result [] {h'} w e = all-done IsInWindow h w h' e
  run_queries-IsInWindow h result (query key ∷ queries) {h'} w e =
      let ((found, h₁), q, rest) = >>=-eq-done (hybrid_query_filter M A h key result) _ e in
      run_queries-IsInWindow h₁ found queries (query_filter-IsInWindow h key result found w q) rest
  run_queries-IsInWindow h result (adapt_to key found unset ∷ queries) {h'} w e =
      let ((ret, h₁), q, rest) = >>=-eq-done (hybrid_adapt M A h key found unset) _ e in
      run_queries-IsInWindow h₁ result queries (adapt-IsInWindow h key found unset w q) rest
