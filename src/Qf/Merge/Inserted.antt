-- ===== src/Qf/Merge/Inserted.antt =====
-- _merge_insert of src/gqf.c writes an item that is read back, and leaves the slots before it alone.
use ski_rental_adaptive_qf.Prelude.{
  ℕ, ◌+◌, ◌-◌, ◌*◌, ◌/◌, ◌^◌, ◌≤◌, ◌<◌, ◌≡◌, ap, ◌∙◌, false, arith, ltb, ◌==◌, if◌then◌else◌,
  Outcome, done, all-bind, all-done,
}
use ski_rental_adaptive_qf.Qf.{Qf, rounds}
use ski_rental_adaptive_qf.Qf.Bits.{get_slot, set_slot}
use ski_rental_adaptive_qf.Qf.SlotInfo.{SlotInfo, get_slot_info}
use ski_rental_adaptive_qf.Qf.Merge.{
  Finger, merge_insert, put_extensions, put_counters, raise_offsets,
}
use ski_rental_adaptive_qf.Qf.Merge.Loops.{put_extensions-Wrote}
use ski_rental_adaptive_qf.Qf.Merge.Frame.{
  frame, set_slot-frame, put_extensions-frame, put_count-frame,
}
use ski_rental_adaptive_qf.Qf.Merge.ReadBack.{Item-info}
use ski_rental_adaptive_qf.Qf.Merge.Placed.{
  put_count-Wrote, SameBefore, offset-Item, written-Item, before, offset-SameBefore,
}

-- In a filter with no marks from a slot on, what _merge_insert writes there is an item with the
-- remainder, the extension, its number of slots and the count given; the slots before it are as they
-- were. The remainder and the extension fit their slots, the numbers are of 64 bits, slots have
-- at most 57 bits and there are blocks for all slots.
pub merge_insert-read :
    (qf : Qf) (index run : ℕ) (f : Finger) (count : ℕ) {behind : ℕ} {qf' : Qf}
    → ((j : ℕ) → index ≤ j → (qf.extensions j ≡ false) × (qf.runends j ≡ false))
    → qf.xnslots ≤ 64 * qf.nblocks
    → qf.bits_per_slot ≤ 57
    → f.rem < 2 ^ qf.bits_per_slot
    → f.ext < 2 ^ (f.ext_len * qf.bits_per_slot)
    → f.ext < 2 ^ 64
    → 0 < count
    → count < 2 ^ 64
    → merge_insert qf index run f count ≡ done (behind, qf')
    → (get_slot qf' index ≡ done f.rem)
      × (get_slot_info qf' index
          ≡ done (record {
            ext = f.ext;
            ext_slots = f.ext_len;
            count = count;
            count_slots = behind - (index + 1 + f.ext_len);
          }))
      × SameBefore index qf qf'
unfolding merge_insert
merge_insert-read qf index run f count {behind} {qf'} unused blocks narrow fits ext_fits ext_64
      some_count count_64 =
    all-bind P (set_slot qf index f.rem) _
      (λ qf₁ e₁. all-bind P (put_extensions f.ext_len qf₁ (index + 1) f.ext) _ (λ (mid, qf₂) e₂.
        all-bind P (if ltb 1 count then put_counters (rounds qf) qf₂ mid count else done (mid, qf₂))
          _ (λ (end, qf₃) e₃. all-done P (end, _) (read e₁ e₂ e₃))))
      (behind, qf')
  where
    P : ℕ × Qf → Type 0
    P r =
        (get_slot r.1 index ≡ done f.rem)
        × (get_slot_info r.1 index
            ≡ done (record {
              ext = f.ext;
              ext_slots = f.ext_len;
              count = count;
              count_slots = r.0 - (index + 1 + f.ext_len);
            }))
        × SameBefore index qf r.1

    info : ℕ → ℕ → Outcome SlotInfo
    info ext_slots count_slots =
        done
          (record { ext = f.ext; ext_slots = ext_slots; count = count; count_slots = count_slots })

    read :
        {qf₁ : Qf} {mid : ℕ} {qf₂ : Qf} {end : ℕ} {qf₃ : Qf}
        → set_slot qf index f.rem ≡ done qf₁
        → put_extensions f.ext_len qf₁ (index + 1) f.ext ≡ done (mid, qf₂)
        → (if ltb 1 count then put_counters (rounds qf) qf₂ mid count else done (mid, qf₂))
          ≡ done (end, qf₃)
        → P (
          end,
          if ((end - 1) / 64) == (run / 64)
              then qf₃
              else record qf₃ { offset = raise_offsets (end - index) index (run / 64) qf₃.offset },
        )
    read {qf₁} {mid} {qf₂} {end} {qf₃} e₁ e₂ e₃ =
        let (at, w₂) = put_extensions-Wrote f.ext_len qf₁ (index + 1) f.ext (mid, qf₂) e₂ in
        let (count_fits, w₃) = put_count-Wrote (rounds qf) qf₂ mid count some_count (end, qf₃) e₃ in
        let k₂ : frame qf₂ ≡ frame qf =
          put_extensions-frame f.ext_len qf₁ (index + 1) f.ext (mid, qf₂) e₂
          ∙ set_slot-frame qf index f.rem qf₁ e₁ in
        let k₃ : frame qf₃ ≡ frame qf =
          put_count-frame (rounds qf) qf₂ mid count (end, qf₃) e₃ ∙ k₂ in
        let len : mid - (index + 1) ≡ f.ext_len = omega arith in
        let item = offset-Item (((end - 1) / 64) == (run / 64)) qf₃ _ (
          written-Item qf index unused f count fits narrow qf₁ e₁ mid qf₂ w₂ end qf₃ w₃ k₂ k₃ blocks
            (rw len ext_fits) count_fits) in
        (
          item.first,
          Item-info _ index mid end f count item ext_64 count_64
              ∙ ap (λ (n : ℕ). info n (end - mid)) len
              ∙ ap (λ (n : ℕ). info f.ext_len (end - n)) at,
          offset-SameBefore (((end - 1) / 64) == (run / 64)) qf₃ _ index qf
              (before qf index unused f count fits narrow qf₁ e₁ mid qf₂ w₂ end qf₃ w₃),
        )
