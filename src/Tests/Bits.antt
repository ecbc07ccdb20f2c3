-- ===== src/Tests/Bits.antt =====
-- The theorems on words, rows and slots, at small inputs.
use ski_rental_adaptive_qf.Prelude.{
  ◌%◌, ◌≤◌, ◌≡◌, refl, ◌⊎◌, ◌&&◌, arith, ltb, leb, ◌==◌, if◌then◌else◌, done, abort, spin,
}
use ski_rental_adaptive_qf.Word.{Word, tzcnt, pdep, count_ones, bitselect}
use ski_rental_adaptive_qf.Word.Select.{IsSelected, bitselect_lem}
use ski_rental_adaptive_qf.Row.{shift_row}
use ski_rental_adaptive_qf.Row.Shift.{moved_bit, shift_row_lem}
use ski_rental_adaptive_qf.Qf.{Qf}
use ski_rental_adaptive_qf.Qf.Bits.{get_slot, set_slot}
use ski_rental_adaptive_qf.Qf.Shifts.{shift_remainders}
use ski_rental_adaptive_qf.Qf.Shifts.Slots.{get_slot-shift_remainders}
use ski_rental_adaptive_qf.Tests.Filters.{one_item}

-- Every third bit is set.
abbrev thirds : Word
thirds i = (i % 3) == 0

bitselect_lem_example :
    IsSelected thirds 4 (bitselect thirds 4)
    ⊎ ((bitselect thirds 4 ≡ 64) × (count_ones thirds 64 ≤ 4))
bitselect_lem_example = bitselect_lem thirds 4 (omega arith)

bitselect_none_sample : bitselect thirds 40 ≡ 64
unfolding bitselect tzcnt pdep count_ones
bitselect_none_sample = refl

shift_row_lem_example : shift_row thirds 10 200 4 150 ≡ moved_bit thirds 10 200 4 150
shift_row_lem_example = shift_row_lem thirds 10 200 4 150 (omega arith) (omega arith) (omega arith)

abbrev written : Qf
written = elim (set_slot one_item 36 9) [ done qf ↦ qf | abort ↦ one_item | spin ↦ one_item ]

get_slot-shift_remainders_example :
    get_slot (shift_remainders one_item 34 40) 36
    ≡ get_slot one_item (if ltb 34 36 && leb 36 40 then 35 else 36)
get_slot-shift_remainders_example =
    get_slot-shift_remainders one_item 34 40 36 (omega arith) (omega arith) (omega arith)
      (omega arith) (omega arith)
