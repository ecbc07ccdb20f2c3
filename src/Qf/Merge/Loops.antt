-- ===== src/Qf/Merge/Loops.antt =====
-- The loops of _merge_insert in src/gqf.c write the digits of an extension and of a count.
use ski_rental_adaptive_qf.Prelude.{
  ℕ, zero, suc, ◌+◌, ◌-◌, ◌*◌, ◌^◌, ◌≤◌, ◌<◌, ◌≡◌, ap, true, false, arith, ltb, done, all-bind,
  all-done, all-elim,
}
use ski_rental_adaptive_qf.Hash.{shr, low_bits}
use ski_rental_adaptive_qf.Qf.{Qf}
use ski_rental_adaptive_qf.Qf.Bits.{set_slot, mark_runend, mark_extension}
use ski_rental_adaptive_qf.Arith.{pow_pos, pow-add}
use ski_rental_adaptive_qf.Qf.Merge.{put_extensions, put_counters}
use ski_rental_adaptive_qf.Qf.Merge.Written.{
  Wrote, nothing-Wrote, set_slot_fields, marked, slot-Wrote,
}
use native.Mathlib.Nat.{div-lt_iff_lt-mul, add-mul}
use mathlib.Core.Path.{subst}

pub put_extensions-Wrote :
    (n : ℕ) (qf : Qf) (i ext : ℕ) (r : ℕ × Qf)
    → put_extensions n qf i ext ≡ done r
    → (r.0 ≡ i + n) × Wrote false qf i r.0 ext r.1
unfolding put_extensions marked
put_extensions-Wrote zero qf i ext =
    all-done (λ r. (r.0 ≡ i + 0) × Wrote false qf i r.0 ext r.1) (i, qf)
      (omega arith, nothing-Wrote false qf i ext)
put_extensions-Wrote (suc n) qf i ext =
    all-bind (λ r. (r.0 ≡ i + suc n) × Wrote false qf i r.0 ext r.1)
      (set_slot qf i (low_bits ext qf.bits_per_slot)) _
      (λ q e r run.
        let (count, w) =
          put_extensions-Wrote n (mark_extension q i) (i + 1) (shr ext qf.bits_per_slot) r run in
        (omega (arith, count), slot-Wrote false qf i ext q e r.0 r.1 w))

-- The counter's slots take all of its digits.
pub put_counters-Wrote :
    (fuel : ℕ) (qf : Qf) (i count : ℕ) (r : ℕ × Qf)
    → put_counters fuel qf i count ≡ done r
    → (count < 2 ^ ((r.0 - i) * qf.bits_per_slot)) × Wrote true qf i r.0 count r.1
unfolding put_counters marked
put_counters-Wrote zero qf i count = λ r h. cc
put_counters-Wrote (suc fuel) qf i count =
    all-elim P (ltb 0 count) _ _
      (λ _. all-bind P (set_slot qf i (low_bits count qf.bits_per_slot)) _ (λ q e r run.
        let (fits, w) =
          put_counters-Wrote fuel (mark_runend (mark_extension q i) i) (i + 1)
            (shr count qf.bits_per_slot) r run in
        (
          one_more q.bits_per_slot r.0 count i (set_slot_fields qf i _ q e).2 w.le fits,
          slot-Wrote true qf i count q e r.0 r.1 w,
        )))
      (λ f. all-done P (i, qf) (none_left f, nothing-Wrote true qf i count))
  where
    none_left : ltb 0 count ≡ false → count < 2 ^ ((i - i) * qf.bits_per_slot)
    none_left f =
        let e : count ≡ 0 = ground arith in omega (arith, e, pow_pos ((i - i) * qf.bits_per_slot))

    one_more :
        (b end v i : ℕ)
        → b ≡ qf.bits_per_slot
        → i + 1 ≤ end
        → shr v qf.bits_per_slot < 2 ^ ((end - (i + 1)) * b)
        → v < 2 ^ ((end - i) * qf.bits_per_slot)
    one_more b end v i same le lt =
        let s : ℕ = qf.bits_per_slot in
        let lt' : shr v s < 2 ^ ((end - (i + 1)) * s) =
          subst (λ (t : ℕ). shr v qf.bits_per_slot < 2 ^ ((end - (i + 1)) * t)) same lt in
        let e : (end - (i + 1)) * s + s ≡ (end - i) * s = omega (
          arith,
          add-mul (end - (i + 1)) 1 s,
          ap (λ (t : ℕ). t * s) {x = end - (i + 1) + 1} {y = end - i} (omega arith),
        ) in
        omega (
          arith,
          (div-lt_iff_lt-mul (pow_pos s)).0 lt',
          pow-add ((end - (i + 1)) * s) s,
          ap (λ (t : ℕ). 2 ^ t) e,
        )

    P : ℕ × Qf → Type 0
    P r = (count < 2 ^ ((r.0 - i) * qf.bits_per_slot)) × Wrote true qf i r.0 count r.1
