-- ===== src/Qf/SlotInfo.antt =====
-- get_slot_info of src/gqf.c: the extension slots and the counter slots behind an item's first slot.
use ski_rental_adaptive_qf.Prelude.{
  ◌%◌, ℕ, zero, suc, ◌+◌, ◌-◌, ◌*◌, bit_or, Bool, true, false, not, if◌then◌else◌, Outcome, done,
  spin, ◌>>=◌, ◌>>◌, assert,
}
use ski_rental_adaptive_qf.Hash.{shl}
use ski_rental_adaptive_qf.Qf.{Qf, rounds}
use ski_rental_adaptive_qf.Qf.Bits.{is_extension, is_counter, is_extension_or_counter, get_slot}

pub record SlotInfo : Type 0 where
  pub ext : ℕ
  pub ext_slots : ℕ
  pub count : ℕ
  pub count_slots : ℕ

-- `while (test(curr)) { *acc |= get_slot(curr) << ((curr - index) * bits_per_slot); curr++; }`
-- The result is the value and the slot at which the loop stopped.
unfoldable pub read_slots : (Qf → ℕ → Bool) → ℕ → Qf → ℕ → ℕ → ℕ → Outcome (ℕ × ℕ)
unfolding get_slot
read_slots test zero qf index curr acc = spin
read_slots test (suc fuel) qf index curr acc = elim (test qf curr) [
  | true ↦ get_slot qf curr >>= λ slot.
      read_slots test fuel qf index (curr + 1)
        (bit_or acc (shl slot ((curr - index) * qf.bits_per_slot % 64)))
  | false ↦ done (acc, curr)
]

unfoldable pub get_slot_info : Qf → ℕ → Outcome SlotInfo
unfolding read_slots is_extension is_counter is_extension_or_counter
get_slot_info qf index = do
  assert (not (is_extension_or_counter qf index))
  (ext, curr) ← read_slots is_extension (rounds qf) qf (index + 1) (index + 1) 0
  (count, stop) ←
      read_slots is_counter (rounds qf) qf curr curr (if is_counter qf curr then 0 else 1)
  done (record {
    ext = ext;
    ext_slots = curr - (index + 1);
    count = count;
    count_slots = stop - curr;
  })
