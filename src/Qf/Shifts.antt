-- ===== src/Qf/Shifts.antt =====
-- Making room for a slot: shift_remainders, shift_runends and insert_one_slot of src/gqf.c.
pub mod Slots
use ski_rental_adaptive_qf.Prelude.{
  ◌>>=◌, ℕ, zero, suc, ◌+◌, ◌-◌, ◌*◌, ◌/◌, Bool, true, false, ◌&&◌, update, ltb, leb, if◌then◌else◌,
  Outcome, done, ◌>>◌, assert,
}
use ski_rental_adaptive_qf.Hash.{add64, sub64}
use ski_rental_adaptive_qf.Row.{shift_row}
use ski_rental_adaptive_qf.Qf.{Qf, rounds}
use ski_rental_adaptive_qf.Qf.Bits.{set_slot}
use ski_rental_adaptive_qf.Qf.Runs.{find_first_empty_slot}

-- Slots start_index .. empty_index - 1 move up by one, over the packed remainders.
unfoldable pub shift_remainders : Qf → ℕ → ℕ → Qf
unfolding shift_row
shift_remainders qf start_index empty_index = record qf {
  remainders =
      shift_row qf.remainders (start_index * qf.bits_per_slot)
        ((empty_index + 1) * qf.bits_per_slot) qf.bits_per_slot;
}

-- The runends and the extensions of first .. last move up by distance.
unfoldable pub shift_runends : Qf → ℕ → ℕ → ℕ → Outcome Qf
unfolding shift_row
shift_runends qf first last distance =
    let end : ℕ = add64 last (distance + 1) in
    assert (ltb last qf.xnslots && ltb distance 64)
    >> done (record qf {
      runends = shift_row qf.runends first end distance;
      extensions = shift_row qf.extensions first end distance;
    })

-- The offsets of n blocks from `first` on go up by one, unless the byte is full.
unfoldable pub bump_offsets : ℕ → ℕ → (ℕ → ℕ) → ℕ → ℕ
bump_offsets zero first offset = offset
bump_offsets (suc n) first offset =
    bump_offsets n (suc first)
      (update offset first (if ltb (offset first) 255 then offset first + 1 else offset first))

-- All offsets of the blocks that a shift reached, from the one behind the target's.
abbrev pub push_offsets : Qf → ℕ → ℕ → Qf
push_offsets qf target_index empty_index = record qf {
  offset = bump_offsets (empty_index / 64 - target_index / 64) (target_index / 64 + 1) qf.offset;
}

-- `true` is the source's result 1, `false` its QF_NO_SPACE.
unfoldable pub insert_one_slot : Qf → ℕ → ℕ → ℕ → Outcome (Bool × Qf)
unfolding shift_remainders shift_runends bump_offsets set_slot find_first_empty_slot
insert_one_slot qf target_index insert_index value = do
  empty_slot_index ← find_first_empty_slot (rounds qf) qf insert_index
  if leb qf.xnslots empty_slot_index then done (false, qf) else (do
    qf₁ ← set_slot (shift_remainders qf insert_index empty_slot_index) insert_index value
    qf₂ ← shift_runends qf₁ insert_index (sub64 empty_slot_index 1) 1
    done (true, push_offsets qf₂ target_index empty_slot_index))
