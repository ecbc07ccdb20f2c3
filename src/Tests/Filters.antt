-- ===== src/Tests/Filters.antt =====
-- A filter of 64 slots with 4-bit remainders, empty and with a few items.
use ski_rental_adaptive_qf.Prelude.{◌≡◌, refl, true, false, ◌||◌, ◌==◌, Outcome, done, abort, spin}
use ski_rental_adaptive_qf.Qf.{hash_invertible, Flags, Qf}
use ski_rental_adaptive_qf.Qf.Adapt.{value, err_no_space}
use ski_rental_adaptive_qf.Qf.Insert.{Outputs, insert}
use ski_rental_adaptive_qf.Word.{count_ones}

abbrev pub empty_qf : Qf
empty_qf = record {
  hash_mode = hash_invertible;
  seed = 0;
  nslots = 64;
  xnslots = 144;
  key_bits = 10;
  value_bits = 0;
  key_remainder_bits = 4;
  bits_per_slot = 4;
  quotient_bits = 6;
  range = 1024;
  nblocks = 3;
  nelts = 0;
  ndistinct_elts = 0;
  noccupied_slots = 0;
  offset = λ b. 0;
  occupieds = λ i. false;
  runends = λ i. false;
  extensions = λ i. false;
  remainders = λ i. false;
  auto_resize = false;
  locks = λ i. false;
}

-- Keys are hashes, and no locks are taken.
abbrev pub plain : Flags
plain = record { no_lock = true; try_once_lock = false; wait_for_lock = false; key_is_hash = true }

-- Keys are hashes, and a held lock is given up on at once.
abbrev pub try_lock : Flags
try_lock = record {
  no_lock = false;
  try_once_lock = true;
  wait_for_lock = false;
  key_is_hash = true;
}

-- The state that a call leaves; the empty filter if the call is not done.
abbrev pub state_or_empty {ℓ κ} : {A : Type ℓ} {B : Type κ} → Outcome (A × B × Qf) → Qf
state_or_empty (done (a, b, qf)) = qf
state_or_empty abort = empty_qf
state_or_empty spin = empty_qf

-- The state that a call with a Boolean result leaves.
abbrev pub state_of {ℓ} : {A : Type ℓ} → Outcome (A × Qf) → Qf
state_of (done (a, qf)) = qf
state_of abort = empty_qf
state_of spin = empty_qf

abbrev pub no_outputs : Outputs
no_outputs = record { ret_index = 0; ret_hash = 0; ret_hash_len = 0 }

-- Item 0x1235 in slot 35 (bucket 35, remainder 5).
abbrev pub one_item : Qf
one_item = record empty_qf {
  nelts = 1;
  ndistinct_elts = 1;
  noccupied_slots = 1;
  occupieds = λ i. i == 0x23;
  runends = λ i. i == 0x23;
  remainders = λ i. (i == 140) || (i == 142);
}

inserted_slot :
    elim (insert empty_qf 0x1235 1 plain no_outputs) [ done (r, o, qf) ↦ r | _ ↦ err_no_space ]
    ≡ value 1
unfolding insert count_ones
inserted_slot = refl
