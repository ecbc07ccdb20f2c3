-- ===== src/Qf/Extend/Misplaced.antt =====
-- Where the counter of an item goes in insert_and_extend (src/gqf.c).
use native.Mathlib.Nat.{div-eq_of_lt}
use ski_rental_adaptive_qf.Prelude.{
  ℕ, ◌+◌, ◌^◌, ◌<◌, ◌≡◌, refl, sym, ap, ◌∙◌, ◌≢◌, arith, done, abort, spin, >>=-eq-done,
}
use ski_rental_adaptive_qf.Hash.{add64, shr, low_bits}
use ski_rental_adaptive_qf.Arith.{low_bits-lt}
use ski_rental_adaptive_qf.Qf.{Qf}
use ski_rental_adaptive_qf.Qf.Bits.{get_slot, set_slot}
use ski_rental_adaptive_qf.Qf.SlotInfo.{SlotInfo, get_slot_info}
use ski_rental_adaptive_qf.Qf.Slots.{get_slot-set_slot_ne}
use ski_rental_adaptive_qf.Qf.Extend.{rewrite_counter, append_counter, increment_counter}

pub rewrite_one :
    (qf : Qf) (at new_count : ℕ) {c : ℕ × Qf}
    → new_count < 2 ^ qf.bits_per_slot
    → rewrite_counter 1 qf at new_count ≡ done c
    → (set_slot qf at (low_bits new_count qf.bits_per_slot) ≡ done c.1) × (c.0 ≡ 0)
unfolding rewrite_counter
rewrite_one qf at new_count {c = c} small h =
    let (q, e, g) =
      >>=-eq-done (set_slot qf at (low_bits new_count qf.bits_per_slot))
        (λ q. done (shr new_count qf.bits_per_slot, q)) h in
    let gone : shr new_count qf.bits_per_slot ≡ 0 = div-eq_of_lt small in
    let both = ap (λ o. elim o [ done x ↦ x | abort ↦ c | spin ↦ c ]) g in
    (e ∙ ap (λ (x : ℕ × Qf). done x.1) both, sym (ap (λ (x : ℕ × Qf). x.0) both) ∙ gone)

pub append_none :
    (qf : Qf) (target at left : ℕ) → left ≡ 0 → append_counter 64 qf target at left ≡ done qf
unfolding append_counter
append_none qf target at left e = rw e refl

-- What an increment leaves in a filter where the counter has one slot and the new count fits it.
one_slot_lem :
    (qf : Qf) (index hash count : ℕ) {info : SlotInfo} {qf' : Qf}
    → get_slot_info qf index ≡ done info
    → info.count_slots ≡ 1
    → add64 info.count count < 2 ^ qf.bits_per_slot
    → increment_counter qf index hash count ≡ done qf'
    → (q : Qf) × (set_slot qf
          (index + 1 + info.ext)
          (low_bits (add64 info.count count) qf.bits_per_slot)
        ≡ done q)
      × (qf' ≡ record q { nelts = q.nelts + count })
unfolding increment_counter
one_slot_lem qf index hash count {info = info} {qf' = qf'} slots one small h =
    let run = rw (slots, one) at h in
    let (c, e, g) =
      >>=-eq-done (rewrite_counter 1 qf (index + 1 + info.ext) (add64 info.count count)) _ run in
    let (set, none_left) = rewrite_one qf (index + 1 + info.ext) (add64 info.count count) small e in
    let last = rw (append_none c.1 _ _ c.0 none_left) at g in
    (c.1, set, sym (ap (λ o. elim o [ done x ↦ x | abort ↦ qf' | spin ↦ qf' ]) last))

-- An item with one counter slot and extension slots whose value is not their number: a higher count
-- that still fits the slot is not written to the item's counter slot, which keeps its value.
pub increment_counter-misplaced :
    (qf : Qf) (index hash count : ℕ) {info : SlotInfo} {qf' : Qf}
    → get_slot_info qf index ≡ done info
    → info.count_slots ≡ 1
    → info.ext ≢ info.ext_slots
    → add64 info.count count < 2 ^ qf.bits_per_slot
    → increment_counter qf index hash count ≡ done qf'
    → get_slot qf' (index + 1 + info.ext_slots) ≡ get_slot qf (index + 1 + info.ext_slots)
unfolding get_slot
increment_counter-misplaced qf index hash count {info = info} {qf' = qf'} slots one ne small h =
    let (q, e, g) = one_slot_lem qf index hash count slots one small h in
    let l =
      get_slot-set_slot_ne qf (index + 1 + info.ext)
        (low_bits (add64 info.count count) qf.bits_per_slot) (index + 1 + info.ext_slots) {qf' = q}
        (low_bits-lt (add64 info.count count) qf.bits_per_slot) (λ same. ne (omega arith)) e in
    rw g l
