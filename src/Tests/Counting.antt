-- ===== src/Tests/Counting.antt =====
-- An item with an extension and a counter, and the steps of a removal.
use ski_rental_adaptive_qf.Prelude.{ℕ, ◌<◌, ◌%◌, ◌≡◌, refl, ◌||◌, arith, ◌==◌, done, abort, spin}
use ski_rental_adaptive_qf.Qf.{Qf}
use ski_rental_adaptive_qf.Qf.Bits.{is_extension_or_counter, get_slot}
use ski_rental_adaptive_qf.Qf.Runs.{skip_extensions}
use ski_rental_adaptive_qf.Qf.SlotInfo.{SlotInfo, get_slot_info}
use ski_rental_adaptive_qf.Qf.Extend.{increment_counter}
use ski_rental_adaptive_qf.Qf.Extend.Misplaced.{increment_counter-misplaced}
use ski_rental_adaptive_qf.Qf.Remove.{skip_by_two}
use ski_rental_adaptive_qf.Qf.Remove.Skip.{HasMarks, skip_by_two_lem}
use ski_rental_adaptive_qf.Row.{field}
use ski_rental_adaptive_qf.Tests.Filters.{one_item}

-- Slot 36 holds the extension 2 and slot 37 the count 3.
abbrev counted : Qf
counted = record one_item {
  extensions = λ i. (i == 36) || (i == 37);
  runends = λ i. (i == 35) || (i == 37);
  remainders = λ i. (i == 140) || (i == 142) || (i == 145) || (i == 148) || (i == 149);
}

abbrev counted_info : SlotInfo
counted_info = record { ext = 2; ext_slots = 1; count = 3; count_slots = 1 }

abbrev incremented : Qf
incremented = elim (increment_counter counted 35 0x21235 1) [
  | done qf ↦ qf
  | abort ↦ counted
  | spin ↦ counted
]

increment_counter-misplaced_example : get_slot incremented 37 ≡ get_slot counted 37
unfolding increment_counter get_slot_info field
increment_counter-misplaced_example =
    increment_counter-misplaced counted 35 0x21235 1 {info = counted_info} {qf' = incremented} refl
      refl (omega arith) (omega arith) refl

-- Slot 36 is the extension of the item in slot 35; other items would stand in slots 37 and 38.
abbrev one_extension : Qf
one_extension = record one_item { extensions = λ i. i == 36 }

only_one : HasMarks one_extension 35 1
unfolding is_extension_or_counter
only_one = (λ j lo hi. ground arith, refl)

skip_by_two_lem_example :
    (skip_extensions 193 one_extension 36 ≡ done 37)
    × (1 % 2 ≡ 0 → skip_by_two 193 one_extension 35 ≡ done 37)
    × (1 % 2 ≡ 1 → (n : ℕ) → skip_by_two 193 one_extension 35 ≡ done n → 37 < n)
skip_by_two_lem_example = skip_by_two_lem one_extension 35 1 191 only_one
