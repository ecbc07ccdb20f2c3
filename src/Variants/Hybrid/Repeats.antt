-- ===== src/Variants/Hybrid/Repeats.antt =====
-- When HybridSkiQF (src/variants/hybrid_skiqf.hpp) takes a false positive for a repeated one, and when it
-- leaves the filter as it is.
use mathlib.Core.Path.{subst}
use ski_rental_adaptive_qf.Prelude.{
  ℕ, ◌+◌, ◌<◌, ◌≡◌, refl, sym, ◌⊎◌, inl, inr, Bool, true, false, ◌&&◌, arith, update, ◌==◌,
  Bool-cases, done, if-false, pos,
}
use ski_rental_adaptive_qf.Variants.ReverseMaps.{ReverseMap}
use ski_rental_adaptive_qf.Variants.{QueryResult}
use ski_rental_adaptive_qf.Variants.Hybrid.{
  Average, IsSmooth, window_size, repeated_fp_threshold, piece, HybridSkiQf, close_window,
  is_repeated_fp, set_pieces, detect, is_worthwhile, note_false_positive, hybrid_adapt,
}

-- Four bits of a row, once four of its bits are set.
set_four : (ℕ → Bool) → ℕ → ℕ → ℕ → ℕ → ℕ → Bool
set_four bits a b c d = update (update (update (update bits a true) b true) c true) d true

set_four-keeps : (bits : ℕ → Bool) (a b c d i : ℕ) → bits i ≡ true → set_four bits a b c d i ≡ true
unfolding set_four
set_four-keeps bits a b c d i h = ground arith

set_four-has :
    (bits : ℕ → Bool) (a b c d : ℕ)
    → (set_four bits a b c d a
        && set_four bits a b c d b
        && set_four bits a b c d c
        && set_four bits a b c d d)
      ≡ true
unfolding set_four
set_four-has bits a b c d = ground arith

all_four :
    (bits bits' : ℕ → Bool) (a b c d : ℕ)
    → ((i : ℕ) → bits i ≡ true → bits' i ≡ true)
    → (bits a && bits b && bits c && bits d) ≡ true
    → (bits' a && bits' b && bits' c && bits' d) ≡ true
all_four bits bits' a b c d k h = ground (arith, k a, k b, k c, k d)

not_over : (a b n : ℕ) → a ≡ b → b + 1 < n → (a + 1 == n) ≡ false
not_over a b n e h = ground arith

module _ (M : ReverseMap) (A : Average) where
  detect-is_repeated_fp :
      (h : HybridSkiQf M A) (key other : ℕ)
      → (is_repeated_fp M A h other ≡ true) ⊎ (other ≡ key)
      → is_repeated_fp M A (detect M A h key) other ≡ true
  unfolding detect is_repeated_fp set_four
  detect-is_repeated_fp h key other r = elim (Bool-cases (is_repeated_fp M A h key)) [
    | inl again ↦ rw again (before r again)
    | inr new ↦ rw new (after r)
  ]
    where
      seen : ℕ → Type 0
      seen k = is_repeated_fp M A h k ≡ true

      before :
          (seen other) ⊎ (other ≡ key)
          → is_repeated_fp M A h key ≡ true
          → is_repeated_fp M A h other ≡ true
      before (inl s) a = s
      before (inr e) a = subst seen (sym e) a

      bits : ℕ → Bool
      bits = h.repeat_detector_filter

      noted : ℕ → ℕ → Bool
      noted k i = set_four bits (piece k 0) (piece k 1) (piece k 2) (piece k 3) i

      after :
          (seen other) ⊎ (other ≡ key)
          → (noted key (piece other 0)
              && noted key (piece other 1)
              && noted key (piece other 2)
              && noted key (piece other 3))
            ≡ true
      after (inl s) =
          all_four bits (noted key) (piece other 0) (piece other 1) (piece other 2) (piece other 3)
            (set_four-keeps bits (piece key 0) (piece key 1) (piece key 2) (piece key 3)) s
      after (inr e) =
          subst
            (λ k.
              (noted key (piece k 0)
                && noted key (piece k 1)
                && noted key (piece k 2)
                && noted key (piece k 3))
              ≡ true)
            (sym e) (set_four-has bits (piece key 0) (piece key 1) (piece key 2) (piece key 3))

  detect-progress :
      (h : HybridSkiQf M A) (key : ℕ) → (detect M A h key).window_progress ≡ h.window_progress
  unfolding detect
  detect-progress h key = ground arith

  -- Within a window the Bloom filter has no false negatives: a false positive that adapt has seen, now
  -- or before, is taken for a repeated one.
  pub note-is_repeated_fp :
      (h : HybridSkiQf M A) (key other : ℕ)
      → h.window_progress + 1 < window_size
      → (is_repeated_fp M A h other ≡ true) ⊎ (other ≡ key)
      → is_repeated_fp M A (note_false_positive M A h key) other ≡ true
  unfolding note_false_positive close_window
  note-is_repeated_fp h key other small r =
      let seen = detect-is_repeated_fp h key other r in
      let open_window : ((detect M A h key).window_progress + 1 == window_size) ≡ false =
        not_over _ _ window_size (detect-progress h key) small in
      rw open_window seen

  -- No window so far had a repeated or a corrected false positive, nor has this one.
  pub record IsQuiet (h : HybridSkiQf M A) : Type 0 where
    pub no_repeats : h.window_repeat_fps ≡ 0
    pub no_corrected : h.window_corrected_fps ≡ 0
    pub average_repeat : h.avg_repeat_fps_per_window ≡ A.zero_average
    pub average_corrected : h.avg_corrected_fps_per_window ≡ A.zero_average

  close_window-IsQuiet :
      (law : IsSmooth A) (h : HybridSkiQf M A) → IsQuiet h → IsQuiet (close_window M A h)
  unfolding close_window
  close_window-IsQuiet law h q = elim (Bool-cases (h.window_progress == window_size)) [
    | inl over ↦ rw over (record {
      no_repeats = refl;
      no_corrected = refl;
      average_repeat = rw (q.average_repeat, q.no_repeats) law.smooth-zero;
      average_corrected = rw (q.average_corrected, q.no_corrected) law.smooth-zero;
    })
    | inr more ↦ rw more q
  ]

  close_window-base : (h : HybridSkiQf M A) → (close_window M A h).base ≡ h.base
  unfolding close_window
  close_window-base h = elim (Bool-cases (h.window_progress == window_size)) [
    | inl over ↦ rw over refl
    | inr more ↦ rw more refl
  ]

  note-IsQuiet :
      (law : IsSmooth A) (h : HybridSkiQf M A) (key : ℕ)
      → IsQuiet h
      → is_repeated_fp M A h key ≡ false
      → IsQuiet (note_false_positive M A h key) × ((note_false_positive M A h key).base ≡ h.base)
  unfolding note_false_positive detect
  note-IsQuiet law h key q new =
      let noted : HybridSkiQf M A = record h {
        repeat_detector_filter = set_pieces h.repeat_detector_filter key;
        window_progress = h.window_progress + 1;
      } in
      rw new (
        close_window-IsQuiet law noted (record {
          no_repeats = q.no_repeats;
          no_corrected = q.no_corrected;
          average_repeat = q.average_repeat;
          average_corrected = q.average_corrected;
        }),
        close_window-base noted,
      )

  -- While no false positive repeats and none was corrected, adapt returns 0, fetches nothing and
  -- leaves the filter as it was, and what comes after is as quiet.
  pub hybrid_adapt-IsQuiet :
      (law : IsSmooth A) (h : HybridSkiQf M A) (key : ℕ) (result : QueryResult) (unset : ℕ)
      → IsQuiet h
      → is_repeated_fp M A h key ≡ false
      → (h' : HybridSkiQf M A) × (hybrid_adapt M A h key result unset ≡ done (pos 0, h'))
        × (h'.base ≡ h.base)
        × IsQuiet h'
  unfolding hybrid_adapt
  hybrid_adapt-IsQuiet law h key result unset q new =
      let (q', same) = note-IsQuiet law h key q new in
      let low : is_worthwhile M A (note_false_positive M A h key) ≡ false =
        rw (q'.average_repeat, q'.average_corrected, law.above-zero repeated_fp_threshold)
          (law.above-zero _) in
      (
        note_false_positive M A h key,
        if-false (is_worthwhile M A (note_false_positive M A h key)) _ low refl,
        same,
        q',
      )
