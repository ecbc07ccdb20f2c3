-- ===== src/Qf/Metadata.antt =====
-- What src/gqf.c computes from the metadata bits alone: where runs start and end does not depend on
-- the remainders, the number of elements or the locks.
use ski_rental_adaptive_qf.Prelude.{
  ℕ, zero, suc, ◌+◌, ◌-◌, ◌*◌, ◌/◌, ◌%◌, ◌≡◌, refl, ap, fun_ext, Bool, true, false, ltb, ◌==◌,
  if◌then◌else◌, Outcome, done, ◌>>=◌, >>=-cong,
}
use ski_rental_adaptive_qf.Qf.{Qf, rounds}
use ski_rental_adaptive_qf.Qf.Runs.{
  skip_extensions, next_runend, close_run, run_end_with, block_offset, run_end, run_start,
  ends_word,
}
use ski_rental_adaptive_qf.Row.{Row, word}
use ski_rental_adaptive_qf.Word.{popcntv, bitrank, bitselectv}
use ski_rental_adaptive_qf.Qf.Bits.{is_extension_or_counter}
use ski_rental_adaptive_qf.Qf.Query.{query_start}

-- A filter with other remainders, another number of elements and other locks.
abbrev pub with_contents : Qf → Row → ℕ → (ℕ → Bool) → Qf
with_contents qf r n l = record qf { remainders = r; nelts = n; locks = l }

module _ (qf : Qf) (r : Row) (n : ℕ) (l : ℕ → Bool) where
  pub skip_extensions-with_contents :
      (fuel i : ℕ) → skip_extensions fuel (with_contents qf r n l) i ≡ skip_extensions fuel qf i
  unfolding skip_extensions is_extension_or_counter
  skip_extensions-with_contents zero i = refl
  skip_extensions-with_contents (suc fuel) i =
      ap (λ (o : Outcome ℕ). elim (is_extension_or_counter qf i) [ true ↦ o | false ↦ done i ])
        (skip_extensions-with_contents fuel (i + 1))

  next_runend-with_contents :
      (fuel rank block ignore : ℕ)
      → next_runend fuel (with_contents qf r n l) rank block ignore
        ≡ next_runend fuel qf rank block ignore
  unfolding next_runend
  next_runend-with_contents zero rank block ignore = refl
  next_runend-with_contents (suc fuel) rank block ignore =
      let rank' : ℕ = rank - popcntv (ends_word qf block) ignore in
      let found : ℕ = bitselectv (ends_word qf (block + 1)) 0 rank' in
      ap
        (λ (o : Outcome ℕ). elim (found == 64) [
          | true ↦ o
          | false ↦ done (64 * (block + 1) + found)
        ])
        (next_runend-with_contents fuel rank' (block + 1) 0)

  close_run-with_contents : (b e : ℕ) → close_run (with_contents qf r n l) b e ≡ close_run qf b e
  unfolding close_run
  close_run-with_contents b e = rw (skip_extensions-with_contents (rounds qf) (e + 1)) refl

  run_end_with-with_contents :
      (o b : ℕ) → run_end_with (with_contents qf r n l) o b ≡ run_end_with qf o b
  unfolding run_end_with
  run_end_with-with_contents o b =
      let rank : ℕ = bitrank (word qf.occupieds (b / 64)) (b % 64) in
      let next = next_runend-with_contents (qf.nblocks + 1) (rank - 1) (b / 64 + o / 64) (o % 64) in
      rw (next, fun_ext (close_run-with_contents b)) refl

  block_offset-with_contents : (b : ℕ) → block_offset (with_contents qf r n l) b ≡ block_offset qf b
  unfolding block_offset
  block_offset-with_contents zero = refl
  block_offset-with_contents (suc b) =
      let last =
        >>=-cong (block_offset (with_contents qf r n l) b) (block_offset-with_contents b) (λ o e.
          ap (λ (m : Outcome ℕ). m >>= λ e. done (e + 1 - 64 * suc b))
            (run_end_with-with_contents o (64 * suc b - 1))) in
      ap (λ (o : Outcome ℕ). if ltb (qf.offset (suc b)) 255 then done (qf.offset (suc b)) else o)
        last

  run_end-with_contents : (b : ℕ) → run_end (with_contents qf r n l) b ≡ run_end qf b
  unfolding run_end
  run_end-with_contents b =
      >>=-cong (block_offset (with_contents qf r n l) (b / 64))
        (block_offset-with_contents (b / 64)) (λ o e. run_end_with-with_contents o b)

  pub query_start-with_contents :
      (b : ℕ) → query_start (with_contents qf r n l) b ≡ query_start qf b
  unfolding query_start run_start
  query_start-with_contents b = rw (run_end-with_contents (b - 1)) refl
