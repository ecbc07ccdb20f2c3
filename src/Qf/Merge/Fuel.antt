-- ===== src/Qf/Merge/Fuel.antt =====
-- The fuel of the loops of qf_merge_ret (src/gqf.c): each item placed moves the target's slot on, and
-- an item beyond the last slot fails an assert.
pub mod MainLoop
pub mod Drains
use ski_rental_adaptive_qf.Prelude.{
  ℕ, zero, suc, ◌+◌, ◌-◌, ◌*◌, ◌/◌, ◌%◌, ◌^◌, ◌≤◌, ◌<◌, min, bit_and, bit_or, bit_xor, ◌≡◌, refl,
  sym, ap, ◌∙◌, fun_ext, ◌≢◌, ◌↔◌, ◌⊎◌, inl, inr, Bool, true, false, ◌&&◌, ◌||◌, not, Option, none,
  some, List, [], ◌∷◌, ◌++◌, map, arith, dec_lt, ℕ_discrete, update, ltb, leb, ◌==◌, if◌then◌else◌,
  ltb→lt, lt→ltb, leb→le, ==_iff, Bool-cases, Outcome, done, abort, spin, ◌>>=◌, ◌>>◌, assert,
  >>=-eq-done, >>=-cong, >>=-done, assert-true, if-true, if-false, all-bind, all-done, all-if,
  all-elim, all-option, all-assert-true, all-assert, ℤ, pos, negsuc, sub_ℕ,
}
use ski_rental_adaptive_qf.Qf.{
  HashMode, hash_default, hash_invertible, hash_none, Flags, Qf, no_space, hash_key, rounds,
}
use ski_rental_adaptive_qf.Qf.Bits.{
  is_runend, is_occupied, is_extension, is_counter, is_runend_or_counter, is_extension_or_counter,
  get_slot, set_slot, mark_runend, clear_runend, flip_runend, mark_extension, clear_extension,
  flip_extension, mark_occupied, clear_occupied, might_be_empty,
}
use ski_rental_adaptive_qf.Hash.{add64, sub64, mul64, not64, shl, shr, low_bits}
use ski_rental_adaptive_qf.Qf.Iterate.{Qfi, qfi_end, qfi_next}
use ski_rental_adaptive_qf.Qf.Merge.{Finger, finger_cmp, merge_insert, put_extensions, put_counters}
use ski_rental_adaptive_qf.Qf.Merge.Written.{Wrote, nothing-Wrote, set_slot_fields}
use ski_rental_adaptive_qf.Qf.Merge.Loops.{put_extensions-Wrote, put_counters-Wrote}
use ski_rental_adaptive_qf.Qf.Merge.Frame.{
  frame, set_slot-frame, put_extensions-frame, merge_insert-frame,
}
use ski_rental_adaptive_qf.Qf.Merge.Filters.{
  Source, load, advance, Target, mark_last, open_run, place, drain_run, drain_rest, Collisions,
  note_collision, Merging, merge_ordered, merge_both, merge_round, merge_loop,
}

-- The slot behind an item lies further on, and not beyond the last slot.
unfoldable pub Advances : ℕ → ℕ → ℕ → Type 0
Advances slots index end = (index < end) × (end ≤ slots)

put_count-Wrote_any :
    (n : ℕ) (qf : Qf) (mid count : ℕ) (r : ℕ × Qf)
    → (if ltb 1 count then put_counters n qf mid count else done (mid, qf)) ≡ done r
    → Wrote true qf mid r.0 count r.1
put_count-Wrote_any n qf mid count =
    all-if (λ r. Wrote true qf mid r.0 count r.1) (ltb 1 count) _ _
      (λ _ r run. (put_counters-Wrote n qf mid count r run).1)
      (λ _.
        all-done (λ r. Wrote true qf mid r.0 count r.1) (mid, qf) (nothing-Wrote true qf mid count))

pub merge_insert-Advances :
    (qf : Qf) (index run : ℕ) (f : Finger) (count : ℕ) (r : ℕ × Qf)
    → merge_insert qf index run f count ≡ done r
    → Advances qf.xnslots index r.0
unfolding merge_insert Advances
merge_insert-Advances qf index run f count = all-bind P (set_slot qf index f.rem) _ (λ qf₁ e₁.
    all-bind P (put_extensions f.ext_len qf₁ (index + 1) f.ext) _ (λ (mid, qf₂) e₂.
      all-bind P (if ltb 1 count then put_counters (rounds qf) qf₂ mid count else done (mid, qf₂)) _
        (λ (end, qf₃) e₃. all-done P (end, _) (bounds e₁ e₂ e₃))))
  where
    P : ℕ × Qf → Type 0
    P r = (index < r.0) × (r.0 ≤ qf.xnslots)

    within : (a b n : ℕ) → a ≤ n → b ≤ a ⊎ b ≤ n → b ≤ n
    within a b n le o = ground arith

    bounds :
        {qf₁ : Qf} {mid : ℕ} {qf₂ : Qf} {end : ℕ} {qf₃ : Qf}
        → set_slot qf index f.rem ≡ done qf₁
        → put_extensions f.ext_len qf₁ (index + 1) f.ext ≡ done (mid, qf₂)
        → (if ltb 1 count then put_counters (rounds qf) qf₂ mid count else done (mid, qf₂))
          ≡ done (end, qf₃)
        → (index < end) × (end ≤ qf.xnslots)
    bounds {qf₁} {mid} {qf₂} {end} {qf₃} e₁ e₂ e₃ =
        let g = set_slot_fields qf index f.rem qf₁ e₁ in
        let w₂ = (put_extensions-Wrote f.ext_len qf₁ (index + 1) f.ext (mid, qf₂) e₂).1 in
        let w₃ = put_count-Wrote_any (rounds qf) qf₂ mid count (end, qf₃) e₃ in
        let x₁ : qf₁.xnslots ≡ qf.xnslots = g.3 in
        let x₂ : qf₂.xnslots ≡ qf₁.xnslots =
          ap (λ t. t.0) (put_extensions-frame f.ext_len qf₁ (index + 1) f.ext (mid, qf₂) e₂) in
        let m = within (index + 1) mid qf₁.xnslots (omega (arith, g.4)) w₂.within in
        let n = within mid end qf₂.xnslots (omega arith) w₃.within in
        (omega (arith, w₂.le, w₃.le), omega arith)

pub place-advances :
    (t : Target) (run : ℕ) (f : Finger) (count : ℕ) (t' : Target)
    → place t run f count ≡ done t'
    → (t.current_index < t'.current_index)
      × (t'.current_index ≤ t.qf.xnslots)
      × (t'.current_run ≡ t.current_run)
      × (t'.qf.xnslots ≡ t.qf.xnslots)
unfolding place Advances
place-advances t run f count =
    all-bind _ (merge_insert t.qf t.current_index run f count) _ (λ (i, qf) e.
      let a = merge_insert-Advances t.qf t.current_index run f count (i, qf) e in
      all-done _ _ (
        a.0,
        a.1,
        refl,
        ap (λ t. t.0) (merge_insert-frame t.qf t.current_index run f count (i, qf) e),
      ))
