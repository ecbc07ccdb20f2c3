-- ===== src/Qf/Merge/Frame.antt =====
-- What writing items one behind the other leaves as it was (_merge_insert of src/gqf.c).
use ski_rental_adaptive_qf.Prelude.{
  ℕ, zero, suc, ◌+◌, ◌-◌, ◌/◌, ◌≡◌, refl, ◌∙◌, Bool, true, false, ltb, ◌==◌, if◌then◌else◌, done,
  all-bind, all-done, all-if, all-elim, all-assert,
}
use ski_rental_adaptive_qf.Qf.{Qf, rounds}
use ski_rental_adaptive_qf.Qf.Bits.{set_slot, mark_runend, mark_extension}
use ski_rental_adaptive_qf.Hash.{shr}
use ski_rental_adaptive_qf.Qf.Merge.{Finger, put_extensions, put_counters, merge_insert}

-- The sizes of a filter, and what it counts.
abbrev pub frame : Qf → ℕ × ℕ × ℕ × ℕ × ℕ × ℕ
frame qf =
    (qf.xnslots, qf.nblocks, qf.bits_per_slot, qf.nelts, qf.ndistinct_elts, qf.noccupied_slots)

abbrev Framed : Qf → ℕ × Qf → Type 0
Framed qf (i, qf') = frame qf' ≡ frame qf

pub set_slot-frame :
    (qf : Qf) (index value : ℕ) (qf' : Qf)
    → set_slot qf index value ≡ done qf'
    → frame qf' ≡ frame qf
unfolding set_slot
set_slot-frame qf index value =
    all-assert (λ q. frame q ≡ frame qf) (ltb index qf.xnslots) _ (all-done _ _ refl)

pub put_extensions-frame :
    (n : ℕ) (qf : Qf) (current ext : ℕ) (r : ℕ × Qf)
    → put_extensions n qf current ext ≡ done r
    → Framed qf r
unfolding put_extensions
put_extensions-frame zero qf current ext = all-done (Framed qf) (current, qf) refl
put_extensions-frame (suc n) qf current ext =
    all-bind (Framed qf) (set_slot qf current _) _ (λ qf' e (i, q) run.
      put_extensions-frame n (mark_extension qf' current) (current + 1) (shr ext qf.bits_per_slot)
        (i, q) run
      ∙ set_slot-frame qf current _ qf' e)

pub put_counters-frame :
    (fuel : ℕ) (qf : Qf) (current count : ℕ) (r : ℕ × Qf)
    → put_counters fuel qf current count ≡ done r
    → Framed qf r
unfolding put_counters
put_counters-frame zero qf current count = λ r h. cc
put_counters-frame (suc fuel) qf current count =
    all-elim (Framed qf) (ltb 0 count) _ _
      (λ _. all-bind (Framed qf) (set_slot qf current _) _ (λ qf' e (i, q) run.
        put_counters-frame fuel (mark_runend (mark_extension qf' current) current) (current + 1)
          (shr count qf.bits_per_slot) (i, q) run
        ∙ set_slot-frame qf current _ qf' e))
      (λ _. all-done (Framed qf) (current, qf) refl)

-- The counter slots, if the count asks for any.
pub put_count-frame :
    (n : ℕ) (qf : Qf) (current count : ℕ) (r : ℕ × Qf)
    → (if ltb 1 count then put_counters n qf current count else done (current, qf)) ≡ done r
    → Framed qf r
put_count-frame n qf current count =
    all-if (Framed qf) (ltb 1 count) _ _ (λ _. put_counters-frame n qf current count)
      (λ _. all-done (Framed qf) (current, qf) refl)

offset-frame :
    (b : Bool) (qf : Qf) (offset : ℕ → ℕ)
    → frame (if b then qf else record qf { offset = offset }) ≡ frame qf
offset-frame true qf offset = refl
offset-frame false qf offset = refl

pub merge_insert-frame :
    (qf : Qf) (index run : ℕ) (finger : Finger) (count : ℕ) (r : ℕ × Qf)
    → merge_insert qf index run finger count ≡ done r
    → Framed qf r
unfolding merge_insert
merge_insert-frame qf index run finger count =
    all-bind (Framed qf) (set_slot qf index finger.rem) _ (λ qf₁ e₁.
      all-bind (Framed qf) (put_extensions finger.ext_len qf₁ (index + 1) finger.ext) _
        (λ (behind, qf₂) e₂.
          all-bind (Framed qf)
            (if ltb 1 count then put_counters (rounds qf) qf₂ behind count else done (behind, qf₂))
            _
            (λ (current, qf₃) e₃.
              all-done (Framed qf) (current, _)
                (offset-frame (((current - 1) / 64) == (run / 64)) qf₃ _
                  ∙ put_count-frame (rounds qf) qf₂ behind count (current, qf₃) e₃
                  ∙ put_extensions-frame finger.ext_len qf₁ (index + 1) finger.ext (behind, qf₂) e₂
                  ∙ set_slot-frame qf index finger.rem qf₁ e₁))))
