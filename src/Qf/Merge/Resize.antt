-- ===== src/Qf/Merge/Resize.antt =====
-- qf_resize_malloc of src/gqf.c, and that it does not return for a filter that holds an item.
use ski_rental_adaptive_qf.Prelude.{
  ℕ, zero, suc, true, false, none, some, ltb, ◌==◌, if◌then◌else◌, Outcome, done, spin, ◌>>=◌,
}
use ski_rental_adaptive_qf.Qf.{Qf, rounds}
use ski_rental_adaptive_qf.Qf.Bits.{mark_occupied}
use ski_rental_adaptive_qf.Qf.Create.{Blocks, qf_malloc, qf_set_auto_resize}
use ski_rental_adaptive_qf.Qf.Iterate.{qfi_end, qf_iterator_from_position}
use ski_rental_adaptive_qf.Qf.Merge.{merge_insert}
use ski_rental_adaptive_qf.Qf.Merge.Filters.{Source, blank, load, Target, mark_last, open_run}

-- The loop. It writes to the old filter and to the new one's occupieds and runends, and reads the
-- item and the iterator that it started with again in each round. The target is the new filter.
unfoldable pub resize_loop : ℕ → Qf → Source → Target → Outcome (Qf × Target)
unfolding merge_insert open_run qfi_end
resize_loop zero qf s t = spin
resize_loop (suc fuel) qf s t = elim (qfi_end qf s.qfi) [
  | true ↦ done (qf, t)
  | false ↦
      let t₁ : Target = if s.qfi.run == t.current_run then t else open_run t s.qfi.run in
      merge_insert qf t₁.current_index t₁.current_run s.finger s.count >>= λ (current_index, qf').
      resize_loop fuel qf' s
        (record t₁ { current_index = current_index; last_index = some t₁.current_index })
]

module _ (extra : ℕ → ℕ) (metadata_bytes : ℕ) where
  -- The result is 0 or 1 and the filter. `memory` is what malloc leaves in the new filter's blocks.
  unfoldable pub qf_resize_malloc : Qf → ℕ → Blocks → Outcome (ℕ × Qf)
  unfolding qf_malloc qf_set_auto_resize qf_iterator_from_position load resize_loop mark_last
  qf_resize_malloc qf nslots memory =
      if ltb nslots qf.nslots
      then done (0, qf)
      else qf_malloc extra metadata_bytes nslots qf.key_bits qf.value_bits qf.hash_mode qf.seed
          memory
        >>= λ made. elim made [
          | none ↦ done (0, qf)
          | some fresh ↦ do
            let new_qf : Qf = if qf.auto_resize then qf_set_auto_resize fresh true else fresh
            (_, qfi) ← qf_iterator_from_position qf blank 0
            s ← load qf qfi
            (_, t) ← resize_loop (rounds qf) qf s (record {
              qf = if qfi.run == 0 then mark_occupied new_qf 0 else new_qf;
              current_run = 0;
              current_index = 0;
              last_index = none;
            })
            done (1, t.qf)
        ]
