-- ===== src/Qf/Bulk.antt =====
-- Bulk insertion into an empty filter: qf_hash_cmp, bulk_insert_sort_hashes and qf_bulk_insert of
-- src/gqf.c. Keys are hashes, and nkeys is the length of the list.
pub mod SortKeys
pub mod Uncounted
use ski_rental_adaptive_qf.Prelude.{
  ℕ, zero, suc, ◌+◌, ◌-◌, ◌*◌, ◌/◌, ◌%◌, ◌^◌, ◌≤◌, ◌<◌, min, bit_and, bit_or, bit_xor, ◌≡◌, refl,
  sym, ap, ◌∙◌, fun_ext, ◌≢◌, ◌↔◌, ◌⊎◌, inl, inr, Bool, true, false, ◌&&◌, ◌||◌, not, Option, none,
  some, List, [], ◌∷◌, ◌++◌, map, arith, dec_lt, ℕ_discrete, update, ltb, leb, ◌==◌, if◌then◌else◌,
  ltb→lt, lt→ltb, leb→le, ==_iff, Bool-cases, Outcome, done, abort, spin, ◌>>=◌, ◌>>◌, assert,
  >>=-eq-done, >>=-cong, >>=-done, assert-true, if-true, if-false, all-bind, all-done, all-if,
  all-elim, all-option, all-assert-true, all-assert, ℤ, pos, negsuc, sub_ℕ,
}
use ski_rental_adaptive_qf.Qf.{
  HashMode, hash_default, hash_invertible, hash_none, Flags, Qf, no_space, hash_key, rounds,
}
use ski_rental_adaptive_qf.Qf.Bits.{
  is_runend, is_occupied, is_extension, is_counter, is_runend_or_counter, is_extension_or_counter,
  get_slot, set_slot, mark_runend, clear_runend, flip_runend, mark_extension, clear_extension,
  flip_extension, mark_occupied, clear_occupied, might_be_empty,
}
use ski_rental_adaptive_qf.Hash.{add64, sub64, mul64, not64, shl, shr, low_bits}
use ski_rental_adaptive_qf.Qf.Merge.{Finger, merge_insert}

-- The remainder, the run and the extension of a hash. The machine's shift takes its amount modulo 64.
abbrev pub rem_of : Qf → ℕ → ℕ
rem_of qf key = low_bits key qf.bits_per_slot

abbrev pub run_of : Qf → ℕ → ℕ
run_of qf key = low_bits (shr key qf.bits_per_slot) qf.quotient_bits

abbrev pub ext_of : Qf → ℕ → ℕ
ext_of qf key = shr key ((qf.quotient_bits + qf.bits_per_slot) % 64)

-- The loop over the bits of the extension, the lowest first: the bits reversed, and their number. A
-- uint64_t has no more than 64.
unfoldable pub reverse_bits : ℕ → ℕ → ℕ → ℕ → Outcome (ℕ × ℕ)
reverse_bits zero temp_ext ext temp_ext_len = spin
reverse_bits (suc fuel) temp_ext ext temp_ext_len = elim (ltb 0 temp_ext) [
  | true ↦
      reverse_bits fuel (temp_ext / 2) (bit_or (shl ext 1) (low_bits temp_ext 1)) (temp_ext_len + 1)
  | false ↦ done (ext, temp_ext_len)
]

abbrev pub ext_bits : Qf → ℕ
ext_bits qf = 64 - qf.quotient_bits - qf.bits_per_slot

-- The number that takes the place of a key. A bucket and a remainder of 64 bits together make a shift
-- by 64 and one by a negative amount, which are undefined: abort.
unfoldable pub sort_hash : Qf → ℕ → Outcome ℕ
unfolding reverse_bits
sort_hash qf key =
    assert (ltb (qf.quotient_bits + qf.bits_per_slot) 64)
    >> (reverse_bits 65 (ext_of qf key) 0 0 >>= λ (ext, temp_ext_len). done (
        bit_or (bit_or (shl ext (ext_bits qf - temp_ext_len)) (shl (rem_of qf key) (ext_bits qf)))
          (shl (run_of qf key) (ext_bits qf + qf.bits_per_slot))))

unfoldable pub bulk_insert_sort_hashes : Qf → List ℕ → Outcome (List ℕ)
unfolding sort_hash
bulk_insert_sort_hashes qf [] = done []
bulk_insert_sort_hashes qf (key ∷ keys) =
    sort_hash qf key >>= λ k. bulk_insert_sort_hashes qf keys >>= λ ks. done (k ∷ ks)

-- The while loop of qf_hash_cmp, and what it comes to.
unfoldable pub hash_cmp_loop : ℕ → Qf → ℕ → ℕ → Outcome ℤ
hash_cmp_loop zero qf temp1 temp2 = spin
hash_cmp_loop (suc fuel) qf temp1 temp2 = elim (not (temp1 == 0) && not (temp2 == 0)) [
  | true ↦
      let t1 : ℕ = shr temp1 qf.bits_per_slot in
      let t2 : ℕ = shr temp2 qf.bits_per_slot in
      elim (rem_of qf t1 == rem_of qf t2) [
        | true ↦ hash_cmp_loop fuel qf t1 t2
        | false ↦ done (if ltb (rem_of qf t2) (rem_of qf t1) then pos 1 else negsuc 0)
      ]
  | false ↦ done (if temp1 == 0 then negsuc 0 else pos 1)
]

unfoldable pub qf_hash_cmp : Qf → ℕ → ℕ → Outcome ℤ
unfolding hash_cmp_loop
qf_hash_cmp qf hash1 hash2 =
    if hash1 == hash2
    then done (pos 0)
    else if run_of qf hash1 == run_of qf hash2
    then if rem_of qf hash1 == rem_of qf hash2
      then hash_cmp_loop 65 qf (shr hash1 qf.quotient_bits) (shr hash2 qf.quotient_bits)
      else done (if ltb (rem_of qf hash2) (rem_of qf hash1) then pos 1 else negsuc 0)
    else done (if ltb (run_of qf hash2) (run_of qf hash1) then pos 1 else negsuc 0)

-- The item that is held back until the next key is known, and the slot for it.
pub record Pending : Type 0 where
  pub index : ℕ
  pub run : ℕ
  pub rem : ℕ
  pub ext : ℕ
  pub ext_len : ℕ
  pub count : ℕ

-- How many slots of extension tell two extensions apart.
unfoldable pub apart_len : ℕ → Qf → ℕ → ℕ → ℕ → Outcome ℕ
apart_len zero qf temp_curr_ext temp_next_ext next_ext_len = spin
apart_len (suc fuel) qf temp_curr_ext temp_next_ext next_ext_len =
    elim (rem_of qf temp_curr_ext == rem_of qf temp_next_ext) [
      | true ↦
          apart_len fuel qf (shr temp_curr_ext qf.bits_per_slot)
            (shr temp_next_ext qf.bits_per_slot) (next_ext_len + 1)
      | false ↦ done next_ext_len
    ]

-- `_merge_insert` of the item held back, with the given number of extension slots.
unfoldable pub release : Qf → Pending → ℕ → Outcome (ℕ × Qf)
unfolding merge_insert
release qf p ext_len =
    merge_insert qf p.index p.run (record { rem = p.rem; ext = p.ext; ext_len = ext_len }) p.count

-- The key is held back, behind the item that stood before it.
abbrev pub hold : Qf → ℕ → ℕ → ℕ → Pending
hold qf key index ext_len = record {
  index = index;
  run = run_of qf key;
  rem = rem_of qf key;
  ext = ext_of qf key;
  ext_len = ext_len;
  count = 1;
}

-- The end of the loop's body, for a key with no special relation to the one before.
unfoldable pub move_on : Qf → Pending → ℕ → Outcome (Pending × Qf)
unfolding release
move_on qf p key = release qf p p.ext_len >>= λ (index, qf').
    done (hold qf' key (if ltb index (run_of qf key) then run_of qf key else index) 0, qf')

-- The loop's body. `1 << quotient_bits` is an int there: quotient_bits is below 31.
unfoldable pub bulk_step : Qf → Pending → ℕ → ℕ → Outcome (Pending × Qf)
unfolding move_on apart_len release
bulk_step qf p previous key =
    if not (run_of qf key == p.run)
    then move_on (mark_occupied (mark_runend qf p.index) (run_of qf key)) p key
    else if not (rem_of qf key == p.rem)
    then move_on qf p key
    else if key == previous
    then done (record p { count = p.count + 1 }, qf)
    else apart_len 65 qf p.ext (ext_of qf key) 1 >>= (λ next_ext_len.
      release qf p (if ltb p.ext_len next_ext_len then next_ext_len else p.ext_len)
      >>= (λ (index, qf'). done (hold qf' key index next_ext_len, qf')))

unfoldable pub bulk_loop : Qf → Pending → ℕ → List ℕ → Outcome (Pending × Qf)
unfolding bulk_step
bulk_loop qf p previous [] = done (p, qf)
bulk_loop qf p previous (key ∷ keys) =
    bulk_step qf p previous key >>= λ (p', qf'). bulk_loop qf' p' key keys

abbrev pub amount_of : List ℕ → ℕ
amount_of [] = 0
amount_of (key ∷ keys) = suc (amount_of keys)

-- `nslots * 0.95 > nkeys` on doubles is exact for a power of two below 2 ^ 50.
unfoldable pub qf_bulk_insert : Qf → List ℕ → Outcome Qf
unfolding bulk_loop release
qf_bulk_insert qf [] = abort
qf_bulk_insert qf (key ∷ keys) = do
  assert (qf.noccupied_slots == 0)
  assert (ltb (100 * amount_of (key ∷ keys)) (95 * qf.nslots))
  (p, qf') ← bulk_loop (mark_occupied qf (run_of qf key)) (hold qf key (run_of qf key) 0) key keys
  (_, qf'') ← release (mark_runend qf' p.index) p p.ext_len
  done qf''
