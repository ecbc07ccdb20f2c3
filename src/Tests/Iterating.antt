-- ===== src/Tests/Iterating.antt =====
-- The iterator on a filter with one item, in slot 35.
use ski_rental_adaptive_qf.Prelude.{◌*◌, ◌/◌, arith, ltb, ◌≡◌, refl, false, none, some, done, abort}
use ski_rental_adaptive_qf.Qf.Iterate.{Qfi, qf_iterator_from_position, qfi_get_hash, qfi_next}
use ski_rental_adaptive_qf.Tests.Filters.{empty_qf, one_item}
use ski_rental_adaptive_qf.Qf.{Qf}
use ski_rental_adaptive_qf.Qf.Iterate.Wraps.{qfi_next-wraps}
use ski_rental_adaptive_qf.Word.{count_ones}
use ski_rental_adaptive_qf.Row.{field}
use ski_rental_adaptive_qf.Qf.Bits.{is_extension_or_counter}

abbrev fresh : Qfi
fresh = record { run = 0; current = 0 }

abbrev at_item : Qfi
at_item = record { run = 35; current = 35 }

from_start : qf_iterator_from_position one_item fresh 0 ≡ done (some 35, at_item)
unfolding qf_iterator_from_position count_ones
from_start = refl

item_there :
    qfi_get_hash one_item at_item
    ≡ done (some (5, record { ext = 0; ext_slots = 0; count = 1; count_slots = 0 }))
unfolding qfi_get_hash field
item_there = refl

no_second_item : qfi_next one_item at_item ≡ done (false, record { run = 144; current = 144 })
unfolding qfi_next count_ones is_extension_or_counter
no_second_item = refl

-- From slot 1 on, the search starts at block 1 and passes over the item; from slot 4 on it starts
-- outside the table.
from_slot_one :
    qf_iterator_from_position one_item fresh 1 ≡ done (none, record { run = 256; current = 256 })
unfolding qf_iterator_from_position count_ones
from_slot_one = refl

from_slot_four : qf_iterator_from_position one_item fresh 4 ≡ abort
unfolding qf_iterator_from_position
from_slot_four = refl

-- Each bucket of block 0 has one item, in its own slot, and bucket 64 has one, too.
abbrev full_block : Qf
full_block = record empty_qf { occupieds = λ i. ltb i 65; runends = λ i. ltb i 65 }

abbrev at_last : Qfi
at_last = record { run = 63; current = 63 }

-- The iterator is at the item of bucket 64, which it takes for one of bucket 0.
abbrev at_next : Qfi
at_next = record { run = 0; current = 64 }

qfi_next-wraps_example : at_next.run ≡ at_last.run / 64 * 64
unfolding qfi_next count_ones is_extension_or_counter
qfi_next-wraps_example =
    qfi_next-wraps full_block at_last {qfi' = at_next} (λ i lt. ground arith) refl (omega arith)
      refl refl
