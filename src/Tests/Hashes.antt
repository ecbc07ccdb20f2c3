-- ===== src/Tests/Hashes.antt =====
-- Hashes that are taken back, and keys whose fingerprints are told apart.
use ski_rental_adaptive_qf.Prelude.{
  ℕ, ◌+◌, ◌-◌, ◌*◌, ◌^◌, ◌<◌, ◌≡◌, refl, ◌≢◌, ◌⊎◌, true, false, arith, done, abort, spin,
}
use ski_rental_adaptive_qf.Qf.{Flags}
use ski_rental_adaptive_qf.Qf.Adapt.{value, err_no_space, Adapted, qf_adapt}
use ski_rental_adaptive_qf.Qf.Query.{fingerprint_bits}
use ski_rental_adaptive_qf.Qf.SlotInfo.{SlotInfo, get_slot_info}
use ski_rental_adaptive_qf.Hash.{low_bits, hash_64, hash_64i}
use ski_rental_adaptive_qf.Hash.Inverse.Stages.{hash_64i-hash_64}
use ski_rental_adaptive_qf.Qf.Adapt.Keys.{qf_adapt-separates}
use ski_rental_adaptive_qf.Tests.Filters.{one_item}
use ski_rental_adaptive_qf.Word.{count_ones}
use ski_rental_adaptive_qf.Row.{field}

hash_64i-hash_64_example : hash_64i (hash_64 12345 (2 ^ 20 - 1)) (2 ^ 20 - 1) ≡ 12345
hash_64i-hash_64_example = hash_64i-hash_64 20 (omega arith) 12345 (omega arith)

-- Keys are hashed, and no locks are taken.
abbrev hashed : Flags
hashed = record {
  no_lock = true;
  try_once_lock = false;
  wait_for_lock = false;
  key_is_hash = false;
}

-- Keys whose hashes agree in the 10 bits of the fingerprint 0x235: 0x1235 and 0x5635.
abbrev stored_key : ℕ
stored_key = 16763926935333996280

abbrev queried_key : ℕ
queried_key = 6207992255245060772

stored_hash : hash_64 stored_key (2 ^ 64 - 1) ≡ 0x1235
unfolding hash_64
stored_hash = refl

abbrev not_adapted : Adapted
not_adapted = record { ret = err_no_space; ret_hash = 0; qf = one_item }

abbrev adapted : Adapted
adapted = elim (qf_adapt one_item 35 stored_key queried_key 0 hashed) [
  | done a ↦ a
  | abort ↦ not_adapted
  | spin ↦ not_adapted
]

abbrev info : SlotInfo
info = record { ext = 0; ext_slots = 0; count = 1; count_slots = 0 }

qf_adapt-separates_example :
    (adapted.ret ≡ err_no_space)
    ⊎ ((length : ℕ) × (adapted.ret ≡ value length)
        × (one_item.bits_per_slot * info.ext_slots + fingerprint_bits one_item < length)
        × (adapted.ret_hash ≡ low_bits (hash_64 stored_key (2 ^ 64 - 1)) length)
        × (low_bits (hash_64 stored_key (2 ^ 64 - 1)) length
            ≢ low_bits (hash_64 queried_key (2 ^ 64 - 1)) length))
unfolding qf_adapt get_slot_info count_ones field hash_64
qf_adapt-separates_example =
    qf_adapt-separates one_item 35 stored_key queried_key 0 hashed {info = info} {a = adapted} refl
      refl (omega arith) (omega arith) (omega arith) (omega arith) refl refl

-- The round trip at a key of 64 bits.
hash_64_sample : hash_64i (hash_64 12345678901234567 (2 ^ 64 - 1)) (2 ^ 64 - 1) ≡ 12345678901234567
unfolding hash_64 hash_64i
hash_64_sample = refl
