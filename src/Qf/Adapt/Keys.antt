-- ===== src/Qf/Adapt/Keys.antt =====
-- qf_adapt of src/gqf.c on keys rather than hashes, with the invertible hash.
use ski_rental_adaptive_qf.Prelude.{
  ℕ, ◌+◌, ◌-◌, ◌*◌, ◌^◌, ◌<◌, ◌≡◌, refl, sym, ap, ◌∙◌, ◌≢◌, ◌⊎◌, false, arith, ◌==◌, if◌then◌else◌,
  Outcome, done, if-false,
}
use ski_rental_adaptive_qf.Qf.{hash_invertible, Flags, Qf, hash_key}
use ski_rental_adaptive_qf.Qf.Query.{fingerprint_bits}
use ski_rental_adaptive_qf.Qf.Adapt.{value, err_no_space, Adapted, adapt, qf_adapt, bucket_of}
use ski_rental_adaptive_qf.Qf.SlotInfo.{SlotInfo, get_slot_info}
use ski_rental_adaptive_qf.Hash.{low_bits, hash_64}
use ski_rental_adaptive_qf.Hash.Inverse.Stages.{hash_64-lt, hash_64_injective}
use ski_rental_adaptive_qf.Qf.Adapt.Separate.{adapt-separates}

hash_key-invertible :
    (qf : Qf) (key : ℕ) (flags : Flags)
    → qf.hash_mode ≡ hash_invertible
    → flags.key_is_hash ≡ false
    → hash_key qf key flags ≡ hash_64 key (2 ^ 64 - 1)
unfolding hash_key
hash_key-invertible qf key flags m f = rw f (rw m refl)

hash-ne :
    (key other : ℕ)
    → key < 2 ^ 64
    → other < 2 ^ 64
    → key ≢ other
    → hash_64 key (2 ^ 64 - 1) ≢ hash_64 other (2 ^ 64 - 1)
hash-ne key other p q ne e = ne (hash_64_injective 64 (omega arith) key other p q e)

hash-lt : (key : ℕ) → hash_64 key (2 ^ 64 - 1) < 2 ^ 64
hash-lt key = hash_64-lt 64 (omega arith) key

ne-false : (a b : ℕ) → a ≢ b → (a == b) ≡ false
ne-false a b h = ground arith

-- qf_adapt on two hashes that differ.
qf_adapt-adapt :
    (qf : Qf) (index key other ret_hash h g : ℕ) (flags : Flags)
    → hash_key qf key flags ≡ h
    → hash_key qf other flags ≡ g
    → h ≢ g
    → qf_adapt qf index key other ret_hash flags ≡ adapt qf index (bucket_of qf h) h g
qf_adapt-adapt qf index key other ret_hash h g flags e e' ne =
    opened
    ∙ ap (λ (t : ℕ). after t (hash_key qf other flags)) e
    ∙ ap (λ (t : ℕ). after h t) e'
    ∙ if-false (h == g) _ (ne-false h g ne) refl
  where
    after : ℕ → ℕ → Outcome Adapted
    after hash other_hash =
        if hash == other_hash
        then done (record { ret = value 0; ret_hash = ret_hash; qf = qf })
        else adapt qf index (bucket_of qf hash) hash other_hash

    opened :
        qf_adapt qf index key other ret_hash flags
        ≡ after (hash_key qf key flags) (hash_key qf other flags)
    opened = unfold qf_adapt in refl

-- In a filter with the invertible hash, qf_adapt for two different 64-bit keys never takes the way
-- out for equal hashes: if it returns, it either reports no space or the length of a fingerprint
-- longer than before that is a prefix of the hash of the first key and not of the other's.
pub qf_adapt-separates :
    (qf : Qf) (index key other ret_hash : ℕ) (flags : Flags) {info : SlotInfo} {a : Adapted}
    → qf.hash_mode ≡ hash_invertible
    → flags.key_is_hash ≡ false
    → 0 < qf.bits_per_slot
    → key < 2 ^ 64
    → other < 2 ^ 64
    → key ≢ other
    → get_slot_info qf index ≡ done info
    → qf_adapt qf index key other ret_hash flags ≡ done a
    → (a.ret ≡ err_no_space)
      ⊎ ((length : ℕ) × (a.ret ≡ value length)
          × (qf.bits_per_slot * info.ext_slots + fingerprint_bits qf < length)
          × (a.ret_hash ≡ low_bits (hash_64 key (2 ^ 64 - 1)) length)
          × (low_bits (hash_64 key (2 ^ 64 - 1)) length
              ≢ low_bits (hash_64 other (2 ^ 64 - 1)) length))
qf_adapt-separates qf index key other ret_hash flags {info} {a} m f nz p q ne slots run =
    let h : ℕ = hash_64 key (2 ^ 64 - 1) in
    let g : ℕ = hash_64 other (2 ^ 64 - 1) in
    let apart : h ≢ g = hash-ne key other p q ne in
    adapt-separates qf index (bucket_of qf h) h g nz (hash-lt key) (hash-lt other) apart slots (
      sym (
        qf_adapt-adapt qf index key other ret_hash h g flags (hash_key-invertible qf key flags m f)
          (hash_key-invertible qf other flags m f) apart)
      ∙ run)
