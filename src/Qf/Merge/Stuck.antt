-- ===== src/Qf/Merge/Stuck.antt =====
-- Resizing a filter that holds an item (qf_resize_malloc of src/gqf.c).
use ski_rental_adaptive_qf.Prelude.{
  ℕ, zero, suc, ◌≡◌, refl, ap, ◌∙◌, false, Option, arith, ltb, leb, ◌==◌, if◌then◌else◌, Outcome,
  done, all-bind, all-done, all-if, all-elim, all-option,
}
use ski_rental_adaptive_qf.Qf.{Qf, rounds}
use ski_rental_adaptive_qf.Qf.Create.{Blocks, qf_malloc}
use ski_rental_adaptive_qf.Qf.Iterate.{Qfi, qfi_end, qf_iterator_from_position}
use ski_rental_adaptive_qf.Qf.Merge.{merge_insert}
use ski_rental_adaptive_qf.Qf.Merge.Frame.{merge_insert-frame}
use ski_rental_adaptive_qf.Qf.Merge.Filters.{Source, blank, load, Target, open_run}
use ski_rental_adaptive_qf.Qf.Merge.Resize.{resize_loop, qf_resize_malloc}

load-qfi : (qf : Qf) (qfi : Qfi) (s : Source) → load qf qfi ≡ done s → s.qfi ≡ qfi
unfolding load
load-qfi qf qfi s h = ground arith

-- The loop never comes to its end, as the iterator stays where it is.
resize_loop-never :
    (fuel : ℕ) (qf : Qf) (s : Source) (t : Target) (r : Qf × Target)
    → leb qf.xnslots s.qfi.current ≡ false
    → resize_loop fuel qf s t ≡ done r
    → ⊥
unfolding resize_loop qfi_end
resize_loop-never zero qf s t r more = λ h. cc
resize_loop-never (suc fuel) qf s t r more =
    all-elim (λ _. ⊥) (leb qf.xnslots s.qfi.current) _ _ (λ e. cc)
      (λ _.
        all-bind (λ _. ⊥) (merge_insert qf t₁.current_index t₁.current_run s.finger s.count) _
          (λ (current_index, qf') e r' run.
            resize_loop-never fuel qf' s _ r'
              (ap (λ (n : ℕ). leb n s.qfi.current)
                  (ap (λ p. p.0)
                    (merge_insert-frame qf _ _ s.finger s.count (current_index, qf') e))
                ∙ more)
              run))
      r
  where
    t₁ : Target
    t₁ = if s.qfi.run == t.current_run then t else open_run t s.qfi.run

same_start :
    {m : Outcome (Option ℕ × Qfi)} {a b : Option ℕ} {q r : Qfi}
    → m ≡ done (a, q)
    → m ≡ done (b, r)
    → r ≡ q
same_start h k = cc

module _ (extra : ℕ → ℕ) (metadata_bytes : ℕ) where
  -- If the iterator finds a first item in the filter, qf_resize_malloc never returns 1, whatever the
  -- new size and what malloc leaves in memory.
  pub qf_resize_malloc-never :
      (qf : Qf) (nslots : ℕ) (memory : Blocks) {first : Option ℕ} {qfi : Qfi}
      → qf_iterator_from_position qf blank 0 ≡ done (first, qfi)
      → qfi_end qf qfi ≡ false
      → ¬ ((qf' : Qf) × (qf_resize_malloc extra metadata_bytes qf nslots memory ≡ done (1, qf')))
  unfolding qf_resize_malloc
  qf_resize_malloc-never qf nslots memory {first} {qfi} start more = λ (qf', h).
      all-if P (ltb nslots qf.nslots) _ _ (λ _. all-done P (0, qf) (λ e. absurd (omega arith)))
        (λ _.
          all-bind P
            (qf_malloc extra metadata_bytes nslots qf.key_bits qf.value_bits qf.hash_mode qf.seed
              memory)
            _
            (λ made e.
              all-option P made _ _ (all-done P (0, qf) (λ e. absurd (omega arith))) (λ fresh.
                all-bind P (qf_iterator_from_position qf blank 0) _ (λ (at, qfi') e.
                  all-bind P (load qf qfi') _ (λ s l.
                    all-bind P (resize_loop (rounds qf) qf s _) _ (λ r run. absurd (
                      resize_loop-never (rounds qf) qf s _ r
                        (ap (λ (q : Qfi). leb qf.xnslots q.current)
                            (load-qfi qf qfi' s l ∙ same_start start e)
                          ∙ at_start)
                        run)))))))
        (1, qf') h refl
    where
      at_start : leb qf.xnslots qfi.current ≡ false
      at_start = unfold qfi_end in more

      P : ℕ × Qf → Type 0
      P (ret, q) = ret ≡ 1 → ⊥
