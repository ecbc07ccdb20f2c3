-- ===== src/Qf/Query/Sound.antt =====
-- What qf_query of src/gqf.c reports of an item that it found.
use ski_rental_adaptive_qf.Qf.Adapt.Separate.{chunk_lem}
use ski_rental_adaptive_qf.Prelude.{
  ℕ, zero, suc, ◌+◌, ◌*◌, ◌^◌, ◌<◌, bit_or, ◌≡◌, sym, ap, ◌∙◌, inl, inr, true, some, arith,
  Bool-cases, done, >>=-eq-done,
}
use ski_rental_adaptive_qf.Hash.{shl, low_bits}
use ski_rental_adaptive_qf.Qf.{Flags, Qf, hash_key, rounds}
use ski_rental_adaptive_qf.Qf.Bits.{is_occupied, get_slot}
use ski_rental_adaptive_qf.Qf.SlotInfo.{SlotInfo, get_slot_info}
use ski_rental_adaptive_qf.Qf.Query.{
  hash_remainder, hash_bucket_index, fingerprint_bits, hash_ext, query_start, Found, query_loop,
  qf_query,
}

-- The item in a slot matches a hash: its remainder and its extension are the hash's.
abbrev pub Matches : Qf → ℕ → Found → Type 0
Matches qf hash f =
    (info : SlotInfo) × (get_slot qf f.ret_index ≡ done (hash_remainder qf hash))
    × (get_slot_info qf f.ret_index ≡ done info)
    × (hash_ext qf hash info.ext_slots ≡ info.ext)
    × (f.count ≡ info.count)
    × (f.ret_hash
        ≡ bit_or (low_bits hash (fingerprint_bits qf)) (shl info.ext (fingerprint_bits qf)))
    × (f.ret_hash_len ≡ qf.bits_per_slot * info.ext_slots + fingerprint_bits qf)

query_loop-Matches :
    (fuel : ℕ) (qf : Qf) (hash i : ℕ) {f : Found}
    → query_loop fuel qf hash i ≡ done (some f)
    → Matches qf hash f
unfolding query_loop
query_loop-Matches zero qf hash i h = cc
query_loop-Matches (suc fuel) qf hash i h = grind (arith, query_loop-Matches fuel qf hash)

-- What qf_query reports of a 64-bit hash. The slot that it names holds the hash's remainder, the
-- count is that of the item there, and the fingerprint returned, of the length returned, is the low
-- bits of the hash. The bucket of the hash is occupied.
pub qf_query-found :
    (qf : Qf) (key : ℕ) (flags : Flags) {f : Found}
    → hash_key qf key flags < 2 ^ 64
    → qf_query qf key flags ≡ done (some f)
    → (is_occupied qf (hash_bucket_index qf (hash_key qf key flags)) ≡ true)
      × (get_slot qf f.ret_index ≡ done (hash_remainder qf (hash_key qf key flags)))
      × ((info : SlotInfo) × (get_slot_info qf f.ret_index ≡ done info)
          × (f.count ≡ info.count)
          × (f.ret_hash_len ≡ fingerprint_bits qf + qf.bits_per_slot * info.ext_slots))
      × (f.ret_hash ≡ low_bits (hash_key qf key flags) f.ret_hash_len)
unfolding qf_query
qf_query-found qf key flags {f} small h =
    let hash : ℕ = hash_key qf key flags in
    elim (Bool-cases (is_occupied qf (hash_bucket_index qf hash))) [
      | inl taken ↦
          let run = rw taken at h in
          let (s, e, g) =
            >>=-eq-done (query_start qf (hash_bucket_index qf hash))
              (λ s. query_loop (rounds qf) qf hash s) run in
          let (info, slot, i, ext, c, rh, len) = query_loop-Matches (rounds qf) qf hash s g in
          let len' : f.ret_hash_len ≡ fingerprint_bits qf + qf.bits_per_slot * info.ext_slots =
            omega (arith, len) in
          let whole =
            chunk_lem hash (fingerprint_bits qf) (qf.bits_per_slot * info.ext_slots) small in
          (taken, slot, (info, i, c, len'), rh ∙ (rw ext at whole) ∙ ap (low_bits hash) (sym len'))
      | inr free ↦ let none_found = rw free at h in cc
    ]
