-- ===== src/Qf/Bits.antt =====
-- The tests on a slot's metadata bits and the access to its remainder (get_slot, set_slot).
use ski_rental_adaptive_qf.Prelude.{
  ℕ, ◌*◌, ◌+◌, ◌-◌, ◌/◌, ◌%◌, ◌^◌, min, bit_or, ◌==◌, ◌||◌, Bool, ◌&&◌, not, ltb, if◌then◌else◌,
  Outcome, done, ◌>>◌, assert, update, true, false,
}
use ski_rental_adaptive_qf.Row.{bit, field, set_field}
use ski_rental_adaptive_qf.Qf.{Qf, no_space}

unfoldable pub is_runend : Qf → ℕ → Bool
is_runend qf index = not (qf.extensions index) && qf.runends index

unfoldable pub is_occupied : Qf → ℕ → Bool
is_occupied qf index = qf.occupieds index

unfoldable pub is_extension : Qf → ℕ → Bool
is_extension qf index = qf.extensions index && not (qf.runends index)

unfoldable pub is_counter : Qf → ℕ → Bool
is_counter qf index = qf.extensions index && qf.runends index

unfoldable pub is_runend_or_counter : Qf → ℕ → Bool
is_runend_or_counter qf index = qf.runends index

unfoldable pub is_extension_or_counter : Qf → ℕ → Bool
is_extension_or_counter qf index = qf.extensions index

-- get_slot and set_slot access the packed remainders by the 64-bit word at the byte that the slot
-- starts in, the slot being at bit `index * bits_per_slot`: the word has `in_word` bits from there
-- on, and higher bits of a wide slot are not in it.
unfoldable pub in_word : Qf → ℕ → ℕ
in_word qf index = 64 - index * qf.bits_per_slot % 8

unfoldable pub slot_width : Qf → ℕ → ℕ
unfolding in_word
slot_width qf index = min qf.bits_per_slot (in_word qf index)

-- The bit behind the slots of the slot's block, where the offset byte of the next block is and then
-- its occupieds.
unfoldable pub slots_end : Qf → ℕ → ℕ
slots_end qf index = (index / 64 + 1) * 64 * qf.bits_per_slot

unfoldable pub get_slot : Qf → ℕ → Outcome ℕ
unfolding slot_width
get_slot qf index =
    if ltb qf.xnslots index
    then done no_space
    else assert (ltb index qf.xnslots)
      >> done (field qf.remainders (index * qf.bits_per_slot) (slot_width qf index))

-- The bits of the value that set_slot writes behind the slots of the block.
unfoldable pub spilled : Qf → ℕ → ℕ → ℕ
unfolding in_word slots_end
spilled qf index value =
    value % 2 ^ in_word qf index / 2 ^ (slots_end qf index - index * qf.bits_per_slot)

-- A value of more bits than the slot is or-ed over what is behind it, as far as the word goes.
unfoldable pub set_slot : Qf → ℕ → ℕ → Outcome Qf
unfolding slot_width spilled
set_slot qf index value =
    assert (ltb index qf.xnslots)
    >> done (record qf {
      remainders =
          set_field qf.remainders (index * qf.bits_per_slot) (slot_width qf index)
            (min (index * qf.bits_per_slot + in_word qf index) (slots_end qf index)) value;
      offset = λ b.
          if b == index / 64 + 1
          then bit_or (qf.offset b) (spilled qf index value % 256)
          else qf.offset b;
      occupieds = λ i.
          if (i / 64) == (index / 64 + 1)
          then qf.occupieds i || bit (spilled qf index value / 256) (i % 64)
          else qf.occupieds i;
    })

-- `METADATA_WORD(qf, field, index) |= 1ULL << (index % 64)` and its like.
abbrev pub mark_runend : Qf → ℕ → Qf
mark_runend qf index = record qf { runends = update qf.runends index true }

abbrev pub clear_runend : Qf → ℕ → Qf
clear_runend qf index = record qf { runends = update qf.runends index false }

abbrev pub flip_runend : Qf → ℕ → Qf
flip_runend qf index = record qf { runends = update qf.runends index (not (qf.runends index)) }

abbrev pub mark_extension : Qf → ℕ → Qf
mark_extension qf index = record qf { extensions = update qf.extensions index true }

abbrev pub clear_extension : Qf → ℕ → Qf
clear_extension qf index = record qf { extensions = update qf.extensions index false }

abbrev pub flip_extension : Qf → ℕ → Qf
flip_extension qf index = record qf {
  extensions = update qf.extensions index (not (qf.extensions index));
}

abbrev pub mark_occupied : Qf → ℕ → Qf
mark_occupied qf index = record qf { occupieds = update qf.occupieds index true }

abbrev pub clear_occupied : Qf → ℕ → Qf
clear_occupied qf index = record qf { occupieds = update qf.occupieds index false }

unfoldable pub might_be_empty : Qf → ℕ → Bool
unfolding is_occupied is_runend_or_counter is_extension_or_counter
might_be_empty qf slot_index =
    not (is_occupied qf slot_index)
    && not (is_runend_or_counter qf slot_index)
    && not (is_extension_or_counter qf slot_index)
