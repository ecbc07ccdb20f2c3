-- ===== src/Qf/Insert/Existing.antt =====
-- insert of src/gqf.c when the fingerprint of the hash is in the filter already.
use ski_rental_adaptive_qf.Prelude.{
  ℕ, zero, suc, ◌+◌, ◌*◌, ◌^◌, ◌<◌, bit_or, ◌≡◌, refl, sym, ap, ◌∙◌, Bool, true, ◌&&◌, not, arith,
  ◌==◌, Outcome, done, ◌>>=◌, >>=-eq-done, all-bind, all-done, all-if, all-assert,
}
use ski_rental_adaptive_qf.Arith.{bit_or_comm}
use ski_rental_adaptive_qf.Qf.Locks.{unlock_unless}
use ski_rental_adaptive_qf.Qf.Adapt.Separate.{chunk_lem}
use ski_rental_adaptive_qf.Qf.Insert.{insert}
use ski_rental_adaptive_qf.Hash.{shl, shr, low_bits}
use ski_rental_adaptive_qf.Qf.{Flags, Qf, rounds}
use ski_rental_adaptive_qf.Qf.Bits.{might_be_empty, is_occupied, is_extension_or_counter, get_slot}
use ski_rental_adaptive_qf.Qf.Runs.{run_end, run_start}
use ski_rental_adaptive_qf.Qf.SlotInfo.{SlotInfo, get_slot_info}
use ski_rental_adaptive_qf.Qf.Adapt.{Ret, value}
use ski_rental_adaptive_qf.Qf.Query.{hash_remainder, fingerprint_bits}
use ski_rental_adaptive_qf.Qf.Insert.{
  Outputs, Walk, place, existing, ran_off, insert_bucket, insert_walk, add_count, insert_empty_slot,
  insert_new_run, insert_in_run, insert_body,
}

-- What the outputs say of an item in the filter that matches a hash.
abbrev pub Reports : Qf → ℕ → Outputs → Type 0
Reports qf hash o =
    (info : SlotInfo) × (get_slot qf o.ret_index ≡ done (hash_remainder qf hash))
    × (get_slot_info qf o.ret_index ≡ done info)
    × (o.ret_hash_len ≡ info.ext_slots * qf.bits_per_slot + fingerprint_bits qf)
    × (info.ext ≡ low_bits (shr hash (fingerprint_bits qf)) (info.ext_slots * qf.bits_per_slot))
    × (o.ret_hash
        ≡ bit_or (shl info.ext (fingerprint_bits qf)) (low_bits hash (fingerprint_bits qf)))

insert_walk-Reports :
    (fuel : ℕ) (qf : Qf) (hash : ℕ) (flags : Flags) (i : ℕ) (out : Outputs) {o : Outputs}
    → insert_walk fuel qf hash flags i out ≡ done (existing o)
    → Reports qf hash o
unfolding insert_walk
insert_walk-Reports zero qf hash flags i out h = cc
insert_walk-Reports (suc fuel) qf hash flags i out h =
    grind (arith, insert_walk-Reports fuel qf hash flags)

-- All results of what follows the walk, by what the walk came to.
known-walk :
    {B : Type 0} (known : Walk → Type 0) (P : B → Type 0) (f : ℕ → ℕ → Bool → Outputs → Outcome B)
    (g h : Outputs → Outcome B)
    → ((at current : ℕ) (last : Bool) (o : Outputs) (b : B) → f at current last o ≡ done b → P b)
    → ((o : Outputs) → known (existing o) → (b : B) → g o ≡ done b → P b)
    → ((o : Outputs) (b : B) → h o ≡ done b → P b)
    → (walk : Walk) → known walk
    → (b : B)
    → elim walk [
      | ran_off o ↦ h o
      | existing o ↦ g o
      | place at current last o ↦ f at current last o
    ]
      ≡ done b
    → P b
known-walk known P f g h u v w (place at current last o) k = u at current last o
known-walk known P f g h u v w (existing o) k = v o k
known-walk known P f g h u v w (ran_off o) k = w o

insert_body-Reports :
    (qf : Qf) (hash count : ℕ) (flags : Flags) (out : Outputs) (r : Ret × Outputs × Qf)
    → insert_body qf hash count flags out ≡ done r
    → r.0 ≡ value 0
    → (r.2 ≡ qf) × Reports qf hash r.1
unfolding insert_body
insert_body-Reports qf hash count flags out = all-bind Old (run_end qf bucket) _ (λ runend_index e.
    all-if Old (might_be_empty qf bucket && (runend_index == bucket)) _ _
      (λ t. all-bind Old (insert_empty_slot qf bucket remainder 1) _ (λ qf₁ e. new qf₁ bucket _))
      (λ f. all-bind Old (run_start qf bucket) _ (λ s e.
        all-if Old (not (is_occupied qf bucket)) _ _
          (λ t. all-bind Old (insert_new_run qf bucket s remainder 1) _ (λ qf₁ e. new qf₁ bucket _))
          (λ f. all-assert Old (not (is_extension_or_counter qf s)) _ (
            all-bind Old (insert_walk (rounds qf) qf hash flags s out) _ (λ walk e.
              known-walk (λ w. insert_walk (rounds qf) qf hash flags s out ≡ done w) Old _ _ _
                (λ at current last o.
                  all-bind Old (insert_in_run qf bucket at current last remainder 1) _
                    (λ qf₁ e. new qf₁ at _))
                (λ o found.
                  all-done Old _
                    (λ z. (refl, insert_walk-Reports (rounds qf) qf hash flags s out found)))
                (λ o. all-done Old _ (λ z. cc)) walk e))))))
  where
    bucket : ℕ
    bucket = insert_bucket qf hash

    remainder : ℕ
    remainder = hash_remainder qf hash

    Old : Ret × Outputs × Qf → Type 0
    Old r = r.0 ≡ value 0 → (r.2 ≡ qf) × Reports qf hash r.1

    new :
        (qf₁ : Qf) (at : ℕ) (o : Outputs) (b : Ret × Outputs × Qf)
        → (add_count qf₁ at hash count >>= λ qf₂. done (value 1, o, qf₂)) ≡ done b
        → Old b
    new qf₁ at o =
        all-bind Old (add_count qf₁ at hash count) _
          (λ qf₂ e'. all-done Old _ (λ z. absurd (ground (arith, z))))

fingerprint_lem :
    (hash total width ext : ℕ)
    → hash < 2 ^ 64
    → ext ≡ low_bits (shr hash total) width
    → bit_or (shl ext total) (low_bits hash total) ≡ low_bits hash (total + width)
fingerprint_lem hash total width ext small e =
    bit_or_comm (shl ext total) (low_bits hash total)
    ∙ ap (λ (x : ℕ). bit_or (low_bits hash total) (shl x total)) e
    ∙ chunk_lem hash total width small

-- insert without locks returns 0 only for a 64-bit hash whose fingerprint is in the filter: the
-- filter is as before, the slot reported holds the remainder, and the fingerprint reported, of the
-- length reported, is that of the item there and the low bits of the hash.
pub insert-existing :
    (qf : Qf) (hash count : ℕ) (flags : Flags) (out : Outputs) {out' : Outputs} {qf' : Qf}
    → flags.no_lock ≡ true
    → hash < 2 ^ 64
    → insert qf hash count flags out ≡ done (value 0, out', qf')
    → (qf' ≡ qf)
      × (get_slot qf out'.ret_index ≡ done (hash_remainder qf hash))
      × ((info : SlotInfo) × (get_slot_info qf out'.ret_index ≡ done info)
          × (out'.ret_hash_len ≡ fingerprint_bits qf + qf.bits_per_slot * info.ext_slots))
      × (out'.ret_hash ≡ low_bits hash out'.ret_hash_len)
unfolding insert unlock_unless
insert-existing qf hash count flags out {out' = out'} {qf' = qf'} n small h =
    let quiet : Flags = record flags { no_lock = true } in
    let (x, e, g) = >>=-eq-done (insert_body qf hash count quiet out) _ (rw n at h) in
    let (same, (info, slot, i, len, ext, rh)) =
      insert_body-Reports qf hash count quiet out (value 0, out', qf') (e ∙ g) refl in
    let width : info.ext_slots * qf.bits_per_slot ≡ qf.bits_per_slot * info.ext_slots =
      omega arith in
    let len' : out'.ret_hash_len ≡ fingerprint_bits qf + qf.bits_per_slot * info.ext_slots =
      omega (arith, len) in
    let ext' : info.ext
        ≡ low_bits (shr hash (fingerprint_bits qf)) (qf.bits_per_slot * info.ext_slots) =
      ext ∙ ap (low_bits (shr hash (fingerprint_bits qf))) width in
    (
      same,
      slot,
      (info, i, len'),
      rh
          ∙ fingerprint_lem hash (fingerprint_bits qf) (qf.bits_per_slot * info.ext_slots) info.ext
              small ext'
          ∙ ap (low_bits hash) (sym len'),
    )
